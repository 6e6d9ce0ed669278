-- ===== src/Tests/Mutexes.antt =====
-- Mutexes and event sets at concrete states.
use Prim.Native.Nat.{max}
use rtthread_nano_to_riscv.Prelude.{
  if◌then◌else◌, ◌-◌, ◌<◌, ℕ, ◌≡◌, ◌≢◌, refl, some, [], ◌∷◌, ◌++◌, arith, ℕ_discrete, inl, min,
}
use rtthread_nano_to_riscv.Prelude.Bits.{bit}
use rtthread_nano_to_riscv.Kernel.{Kernel, with_stat, eok, pure, ◌>>◌}
use rtthread_nano_to_riscv.Scheduler.{schedule}
use rtthread_nano_to_riscv.Scheduler.Queues.{Queues, IsReady, IsRunnable, put}
use rtthread_nano_to_riscv.Thread.Resume.{IsSuspended, resume_out}
use rtthread_nano_to_riscv.Ipc.Waiting.{IsWaiting}
use rtthread_nano_to_riscv.Ipc.Resume.{ipc_list_resume-IsReady}
use rtthread_nano_to_riscv.Ipc.Mutex.{mutex_take, mutex_release}
use rtthread_nano_to_riscv.Ipc.Mutex.Owner.{
  IsOwned, IsRunning, again_out, less_out, mutex_release-mutex_take,
}
use rtthread_nano_to_riscv.Ipc.Mutex.Inherit.{wait_out, wait_queues}
use rtthread_nano_to_riscv.Ipc.Mutex.Handover.{
  mutex_release-hands_over, release_out, release_queues,
}
use rtthread_nano_to_riscv.Ipc.Event.{has, flag_clear, is_met, event_send, event_recv, returns}
use rtthread_nano_to_riscv.Ipc.Event.Waking.{event_send-wakes, woken_out}
use rtthread_nano_to_riscv.Ipc.Event.Receipt.{event_recv-event_send, sent_out, received_out}
use rtthread_nano_to_riscv.Tests.States.{two_ready, two_queues}
use rtthread_nano_to_riscv.Tests.Waiting.{
  one_waits, one_waits-IsReady, one_waits-IsRunnable, nine_waits, sleeps_9, byte_1, nobody,
}

-- threads 1 and 2, and thread 9 with the less urgent priority 5 are READY
abbrev three : Kernel
three = resume_out one_waits 9 5

abbrev three_queues : Queues
three_queues = put 5 (two_queues 5 ++ 9 ∷ []) two_queues

three_lem : IsReady three three_queues × IsRunnable three three_queues × IsWaiting three 0 []
three_lem =
    let out =
      ipc_list_resume-IsReady one_waits two_queues 0 9 5 [] sleeps_9 one_waits-IsReady
        one_waits-IsRunnable nine_waits in
    (out.1, out.2, out.3)

-- thread 1 runs, and thread 9 owns the mutex 0
abbrev owned : Kernel
owned = record three {
  current = some 1;
  mutex = λ i. record { flag = 0; value = 0; original_priority = 5; hold = 1; owner = some 9 };
}

owned-IsReady : IsReady owned three_queues
owned-IsReady =
    let r = three_lem.0 in
    record { linked = r.linked; rings = r.rings; bits = r.bits; width = r.width; queued = r.queued }

owned-IsRunnable : IsRunnable owned three_queues
owned-IsRunnable = record { stats = three_lem.1.stats }

byte_9 : (owned.thread 9).stat < 256
unfolding ℕ_discrete with_stat
byte_9 = omega arith

byte_1' : (owned.thread 1).stat < 256
unfolding ℕ_discrete with_stat
byte_1' = omega arith

at_9 : three_queues 5 ≡ [] ++ 9 ∷ []
unfolding ℕ_discrete
at_9 = refl

at_1 : three_queues 3 ≡ [] ++ 1 ∷ 2 ∷ []
unfolding ℕ_discrete
at_1 = refl

in_range : 5 < 32
in_range = omega arith

more_urgent : 3 < 5
more_urgent = omega arith

abbrev raised_out : Kernel
raised_out =
    wait_out owned three_queues 9 5 [] [] 1 3 [] (2 ∷ []) in_range more_urgent at_9 at_1 byte_9
      byte_1' owned-IsReady owned-IsRunnable 0

abbrev raised_queues : Queues
raised_queues =
    wait_queues owned three_queues 9 5 [] [] 1 3 [] (2 ∷ []) in_range more_urgent at_9 at_1 byte_9
      byte_1' owned-IsReady owned-IsRunnable

-- thread 1 owns the mutex 0 and runs with a priority it inherited, thread 9 waits
abbrev holder : Kernel
holder = record one_waits {
  current = some 1;
  mutex = λ i. record { flag = 0; value = 0; original_priority = 7; hold = 1; owner = some 1 };
}

holder-IsReady : IsReady holder two_queues
holder-IsReady =
    let r = one_waits-IsReady in
    record { linked = r.linked; rings = r.rings; bits = r.bits; width = r.width; queued = r.queued }

holder-IsRunnable : IsRunnable holder two_queues
holder-IsRunnable = record { stats = one_waits-IsRunnable.stats }

holder-IsRunning : IsRunning holder 1
holder-IsRunning = record { current = refl; nest = refl }

holder-IsOwned : IsOwned holder 0 1 1 (9 ∷ [])
holder-IsOwned = record {
  owner = refl;
  value = refl;
  hold = refl;
  positive = omega arith;
  byte = omega arith;
  waiting = record { ring = nine_waits.ring; stats = nine_waits.stats };
}

holder-IsSuspended : IsSuspended holder 9 5
holder-IsSuspended =
    let s = sleeps_9 in
    record {
      in_range = s.in_range;
      priority = s.priority;
      mask = s.mask;
      byte = s.byte;
      stat = s.stat;
    }

first_1 : two_queues 3 ≡ [] ++ 1 ∷ 2 ∷ []
unfolding ℕ_discrete
first_1 = refl

three_in_range : 3 < 32
three_in_range = omega arith

seven_in_range : 7 < 32
seven_in_range = omega arith

other : ◌≢◌ {A = ℕ} 7 3
other e = omega (arith, e)

mutex_release-mutex_take_example :
    ((mutex_take 5 0 0 >> mutex_release 0) holder ≡ some (eok, less_out (again_out holder 0 1) 0))
    × IsOwned (less_out (again_out holder 0 1) 0) 0 1 1 (9 ∷ [])
mutex_release-mutex_take_example =
    mutex_release-mutex_take holder 5 0 1 1 0 (9 ∷ []) holder-IsRunning holder-IsOwned (omega arith)

abbrev passed_out : Kernel
passed_out =
    release_out holder two_queues 0 1 3 [] (2 ∷ []) 9 5 [] 7 three_in_range seven_in_range first_1
      byte_1 holder-IsReady holder-IsRunnable holder-IsRunning holder-IsOwned holder-IsSuspended
      other refl

abbrev passed_queues : Queues
passed_queues =
    release_queues holder two_queues 0 1 3 [] (2 ∷ []) 9 5 [] 7 three_in_range seven_in_range
      first_1 byte_1 holder-IsReady holder-IsRunnable holder-IsRunning holder-IsOwned
      holder-IsSuspended other refl

mutex_release-hands_over_example :
    (mutex_release 0 holder ≡ (schedule >> pure eok) passed_out)
    × IsOwned passed_out 0 9 1 []
    × ((passed_out.thread 1).current_priority ≡ 7)
    × IsReady passed_out passed_queues
    × IsRunnable passed_out passed_queues
mutex_release-hands_over_example =
    mutex_release-hands_over holder two_queues 0 1 3 [] (2 ∷ []) 9 5 [] 7 three_in_range
      seven_in_range first_1 byte_1 holder-IsReady holder-IsRunnable holder-IsRunning holder-IsOwned
      holder-IsSuspended other refl

-- thread 9 waits for the events 2 and 4, of which 2 is there
abbrev expects : Kernel
expects = record one_waits {
  thread = λ u. record (one_waits.thread u) { event_set = 6; event_info = 5 };
  event = λ i. record { flag = 0; set = 2 };
  current = some 1;
}

expects-IsReady : IsReady expects two_queues
expects-IsReady =
    let r = one_waits-IsReady in
    record { linked = r.linked; rings = r.rings; bits = r.bits; width = r.width; queued = r.queued }

expects-IsRunnable : IsRunnable expects two_queues
expects-IsRunnable = record { stats = one_waits-IsRunnable.stats }

expects-IsSuspended : IsSuspended expects 9 5
expects-IsSuspended =
    let s = sleeps_9 in
    record {
      in_range = s.in_range;
      priority = s.priority;
      mask = s.mask;
      byte = s.byte;
      stat = s.stat;
    }

expects-IsWaiting : IsWaiting expects 0 (9 ∷ [])
expects-IsWaiting = record { ring = nine_waits.ring; stats = nine_waits.stats }

abbrev woken : Kernel
woken =
    woken_out expects two_queues 0 4 9 5 [] expects-IsSuspended expects-IsReady expects-IsRunnable
      expects-IsWaiting

event_send-wakes_example :
    (event_send 2 0 4 expects ≡ (schedule >> pure eok) woken)
    × ((woken.event 0).set ≡ 0)
    × ((woken.thread 9).event_set ≡ 6)
    × IsReady woken (put 5 (two_queues 5 ++ 9 ∷ []) two_queues)
    × IsRunnable woken (put 5 (two_queues 5 ++ 9 ∷ []) two_queues)
    × IsWaiting woken 0 []
unfolding is_met
event_send-wakes_example =
    event_send-wakes expects two_queues 0 4 9 5 [] expects-IsSuspended expects-IsReady
      expects-IsRunnable expects-IsWaiting 2 (omega arith) (omega arith) refl refl tt

-- thread 1 runs, and nobody waits for an event
abbrev asks : Kernel
asks = record two_ready { current = some 1; event = λ i. record { flag = 0; set = 3 } }

event_recv-event_send_example :
    (event_send 1 0 6 asks ≡ some (eok, sent_out asks 0 6))
    × (event_recv 1 0 6 5 0 (sent_out asks 0 6)
        ≡ some (returns eok (some 6), received_out asks 0 1 6 5))
    × (bit ((received_out asks 0 1 6 5).event 0).set 1
        ≡ (if has 5 flag_clear then min (bit 3 1) (1 - bit 6 1) else max (bit 3 1) (bit 6 1)))
event_recv-event_send_example =
    event_recv-event_send asks 1 0 1 6 5 0 1 (record { current = refl; nest = refl })
      (record { ring = nobody.ring; stats = tt }) (omega arith) (omega arith) (omega arith)
      (inl refl) (omega arith)
