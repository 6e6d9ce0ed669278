-- ===== src/Tests/Threads.antt =====
-- The state changes of threads at concrete states.
use rtthread_nano_to_riscv.Prelude.{◌<◌, ◌≡◌, refl, some, [], ◌∷◌, arith, ℕ_discrete}
use rtthread_nano_to_riscv.Service.Node.{tlist, thread_timer}
use rtthread_nano_to_riscv.Service.Pointers.{IsAlone}
use rtthread_nano_to_riscv.Kernel.{Kernel, stat_of, stat_suspend, eok, pure, ◌>>◌, with_stat}
use rtthread_nano_to_riscv.Scheduler.{schedule}
use rtthread_nano_to_riscv.Scheduler.Queues.{IsReady, IsRunnable, put}
use rtthread_nano_to_riscv.Timer.Stop.{flag_of}
use rtthread_nano_to_riscv.Thread.{thread_suspend, thread_yield}
use rtthread_nano_to_riscv.Thread.Suspend.{suspend_out, thread_suspend-IsReady}
use rtthread_nano_to_riscv.Thread.Resume.{IsSuspended}
use rtthread_nano_to_riscv.Thread.Yield.{rotate, thread_yield-IsReady}
use rtthread_nano_to_riscv.Tests.States.{
  one_ready, two_ready, two_queues, two_ready-IsReady, two_ready-IsRunnable, blank,
}

byte_1 : (two_ready.thread 1).stat < 256
unfolding ℕ_discrete with_stat
byte_1 = omega arith

thread_suspend-IsReady_example :
    (thread_suspend 1 two_ready ≡ some (eok, suspend_out two_ready 1 3))
    × IsReady (suspend_out two_ready 1 3) (put 3 (2 ∷ []) two_queues)
    × IsRunnable (suspend_out two_ready 1 3) (put 3 (2 ∷ []) two_queues)
    × (stat_of ((suspend_out two_ready 1 3).thread 1).stat ≡ stat_suspend)
    × IsAlone (suspend_out two_ready 1 3).links (tlist 1)
    × (flag_of (suspend_out two_ready 1 3) (thread_timer 1) ≡ 0)
unfolding ℕ_discrete
thread_suspend-IsReady_example =
    thread_suspend-IsReady two_ready two_queues 1 3 [] (2 ∷ []) (omega arith) refl byte_1
      two_ready-IsReady two_ready-IsRunnable

waits : IsSuspended one_ready 2 3
unfolding ℕ_discrete stat_of
waits = record {
  in_range = omega arith;
  priority = refl;
  mask = refl;
  byte = omega arith;
  stat = refl;
}

-- thread 1 runs
abbrev pub running_1 : Kernel
running_1 = record two_ready { current = some 1 }

pub running_1-IsReady : IsReady running_1 two_queues
running_1-IsReady =
    let r = two_ready-IsReady in
    record { linked = r.linked; rings = r.rings; bits = r.bits; width = r.width; queued = r.queued }

pub running_1-IsRunnable : IsRunnable running_1 two_queues
running_1-IsRunnable = record { stats = two_ready-IsRunnable.stats }

thread_yield-IsReady_example :
    (thread_yield running_1 ≡ (schedule >> pure eok) (rotate running_1 1 3))
    × IsReady (rotate running_1 1 3) (put 3 (2 ∷ 1 ∷ []) two_queues)
    × IsRunnable (rotate running_1 1 3) (put 3 (2 ∷ 1 ∷ []) two_queues)
unfolding ℕ_discrete
thread_yield-IsReady_example =
    thread_yield-IsReady running_1 two_queues 1 3 [] (2 ∷ []) (omega arith) refl running_1-IsReady
      running_1-IsRunnable refl refl

-- thread 1 is new, and thread 7 runs
abbrev fresh : Kernel
fresh = record blank { current = some 7; thread = λ u. record (blank.thread u) { stat = 0 } }
