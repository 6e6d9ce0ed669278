-- ===== src/Tests/Clocks.antt =====
-- The tick at concrete states.
use rtthread_nano_to_riscv.Prelude.{
  ℕ, List, All, take_while, inr, ap, false, ◌+◌, ◌-◌, ◌^◌, ◌≡◌, refl, some, [], ◌∷◌, arith,
  ℕ_discrete, true,
}
use rtthread_nano_to_riscv.Kernel.{Kernel, modify, pure, ◌>>◌, eok}
use rtthread_nano_to_riscv.Scheduler.{schedule}
use rtthread_nano_to_riscv.Scheduler.Queues.{IsReady, IsRunnable, put}
use rtthread_nano_to_riscv.Thread.Yield.{rotate}
use rtthread_nano_to_riscv.Clock.{tick_from_millisecond, time_slice}
use rtthread_nano_to_riscv.Clock.Tick.{ticked, refilled, time_slice-goes_on, time_slice-IsReady}
use rtthread_nano_to_riscv.Clock.{timer_check}
use rtthread_nano_to_riscv.Clock.Due.{Callbacks, is_due, noted_all}
use rtthread_nano_to_riscv.Clock.Check.{timer_check-none_due}
use rtthread_nano_to_riscv.Timer.{tick_sub}
use rtthread_nano_to_riscv.Timer.Start.{IsTimers, started}
use rtthread_nano_to_riscv.Service.Node.{TimerId, user_timer, timers, row, timer_eq}
use rtthread_nano_to_riscv.Service.Pointers.{
  list_remove-IsLinked, list_remove-IsAlone, insert_after-IsLinked,
}
use rtthread_nano_to_riscv.Service.Ring.{Ring-insert_after, Ring-list_remove_frame}
use rtthread_nano_to_riscv.Service.Links.{list_remove}
use rtthread_nano_to_riscv.Tests.States.{no_links, no_links-IsLinked, blank, two_queues}
use rtthread_nano_to_riscv.Tests.Threads.{running_1, running_1-IsReady, running_1-IsRunnable}

tick_from_millisecond_runs :
    (tick_from_millisecond 1 ≡ 1)
    × (tick_from_millisecond 1000 ≡ 100)
    × (tick_from_millisecond (2 ^ 32 - 1) ≡ 2 ^ 32 - 1)
unfolding tick_from_millisecond
tick_from_millisecond_runs = (refl, refl, refl)

time_slice-goes_on_example : time_slice running_1 ≡ some (tt, ticked running_1 1 4)
unfolding ℕ_discrete
time_slice-goes_on_example = time_slice-goes_on running_1 1 refl (omega arith) (omega arith)

-- thread 1 runs its last tick
abbrev last_tick : Kernel
last_tick = record running_1 { thread = λ u. record (running_1.thread u) { remaining_tick = 1 } }

last_tick-IsReady : IsReady last_tick two_queues
last_tick-IsReady =
    let r = running_1-IsReady in
    record { linked = r.linked; rings = r.rings; bits = r.bits; width = r.width; queued = r.queued }

time_slice-IsReady_example :
    (time_slice last_tick ≡ ((schedule >> pure eok) >> pure tt) (rotate (refilled last_tick 1) 1 3))
    × IsReady (rotate (refilled last_tick 1) 1 3) (put 3 (2 ∷ 1 ∷ []) two_queues)
    × IsRunnable (rotate (refilled last_tick 1) 1 3) (put 3 (2 ∷ 1 ∷ []) two_queues)
unfolding ℕ_discrete
time_slice-IsReady_example =
    time_slice-IsReady last_tick two_queues 1 3 [] (2 ∷ []) (omega arith) refl last_tick-IsReady
      (record { stats = running_1-IsRunnable.stats }) refl refl refl

-- the callback counts its calls in a semaphore
abbrev count_call : TimerId → Kernel → Kernel
count_call t k = record k { sem = λ i. record (k.sem i) { value = (k.sem i).value + 1 } }

abbrev calls : Kernel → ℕ
calls k = (k.sem 0).value

call_list :
    (t : TimerId) (k : Kernel) (b : ℕ) (ts : List TimerId)
    → IsTimers k b ts
    → IsTimers (count_call t k) b ts
call_list t k b ts i = record {
  linked = i.linked;
  ring = i.ring;
  base = i.base;
  window = i.window;
  sorted = i.sorted;
}

counting : Callbacks (λ t. modify (count_call t)) count_call calls (λ t n. n + 1)
counting = record {
  returns = λ t k. refl;
  table = λ t k. refl;
  tick = λ t k. refl;
  list = call_list;
  alone = λ t k al. al;
  noted = λ t k. refl;
  still = λ k k' e1 e2 e3 e4 e5. ap (λ f. (f 0).value) e2;
}

-- a periodic timer, started at tick 2^32 - 8 and due at the tick 12
abbrev armed : Kernel
armed =
    started (record blank { timer = λ t. record { flag = 2; init_tick = 20; timeout_tick = 0 } })
      (user_timer 4) timers

abbrev at_12 : Kernel
at_12 = record armed { tick = 12 }

abbrev the_timer : List TimerId
the_timer = user_timer 4 ∷ []

armed-IsTimers : IsTimers at_12 0xfffffff8 the_timer
unfolding timer_eq ℕ_discrete tick_sub
armed-IsTimers =
    let n = row (user_timer 4) in
    let w = list_remove-IsLinked no_links n no_links-IsLinked in
    let al = list_remove-IsAlone no_links n no_links-IsLinked in
    let empty =
      Ring-list_remove_frame no_links timers [] (refl, (tt, tt)) n no_links-IsLinked (λ e. cc) tt in
    record {
      linked = insert_after-IsLinked (list_remove n no_links) timers n w al (λ e. cc);
      ring = Ring-insert_after (list_remove n no_links) timers n w al (λ e. cc) [] empty;
      base = omega arith;
      window = (record { word = omega arith; near = omega arith }, tt);
      sorted = (tt, tt);
    }

-- The callback runs once, and the timer waits for its next turn.
timer_check-none_due_example :
    (k' : Kernel) × (us : List TimerId) × (timer_check (λ t. modify (count_call t)) 2 2 at_12
      ≡ some (tt, k'))
    × IsTimers k' 0xfffffff8 us
    × All (λ u. is_due k' 12 u ≡ false) us
    × (calls k' ≡ noted_all (λ t n. n + 1) (take_while (is_due at_12 12) the_timer) (calls at_12))
    × (k'.irq ≡ true)
unfolding timer_eq ℕ_discrete tick_sub
timer_check-none_due_example =
    timer_check-none_due (λ t. modify (count_call t)) count_call calls (λ t n. n + 1) counting 2
      0xfffffff8 2 at_12 the_timer armed-IsTimers
      (record { word = omega arith; near = omega arith })
      (
        inr (record {
          positive = omega arith;
          short = omega arith;
          near = record { word = omega arith; near = omega arith };
        }),
        tt,
      )
      (omega arith) (omega arith)
