-- ===== src/Tests/Waiting.antt =====
-- Wait lists and semaphores at concrete states.
use rtthread_nano_to_riscv.Prelude.{
  ◌-◌, ◌^◌, ◌<◌, ◌≡◌, refl, some, [], ◌∷◌, ◌++◌, arith, ℕ_discrete, inr,
}
use rtthread_nano_to_riscv.Prelude.Sorted.{IsSorted}
use rtthread_nano_to_riscv.Service.Node.{tlist, suspended, node_eq}
use rtthread_nano_to_riscv.Service.Links.{insert_before}
use rtthread_nano_to_riscv.Service.Pointers.{IsAlone}
use rtthread_nano_to_riscv.Kernel.{
  Kernel, stat_of, with_stat, stat_suspend, eok, etimeout, pure, ◌>>◌, set_error,
}
use rtthread_nano_to_riscv.Scheduler.{schedule}
use rtthread_nano_to_riscv.Scheduler.Queues.{IsReady, IsRunnable, put}
use rtthread_nano_to_riscv.Thread.Suspend.{suspend_out}
use rtthread_nano_to_riscv.Thread.Resume.{IsSuspended, resume_out}
use rtthread_nano_to_riscv.Ipc.{ipc_list_suspend, flag_prio, sem_take, sem_release, returns, waits}
use rtthread_nano_to_riscv.Ipc.Waiting.{
  IsWaiting, put_before, put_before-IsWaiting, put_before-IsReady,
}
use rtthread_nano_to_riscv.Ipc.Suspend.{ipc_list_suspend-prio}
use rtthread_nano_to_riscv.Ipc.Semaphore.{
  IsSem, sem_take-no_wait, sem_take-waits, sem_release-resumes,
}
use rtthread_nano_to_riscv.Tests.States.{
  blank, two_ready, two_queues, two_ready-IsReady, two_ready-IsRunnable,
}

pub nobody : IsWaiting two_ready 0 []
unfolding insert_before node_eq ℕ_discrete
nobody = record { ring = (refl, (tt, tt)); stats = tt }

off_9 : IsAlone two_ready.links (tlist 9)
unfolding insert_before node_eq ℕ_discrete
off_9 = (refl, refl)

stat_9 : stat_of (two_ready.thread 9).stat ≡ stat_suspend
unfolding ℕ_discrete stat_of
stat_9 = refl

-- threads 1 and 2 are READY, and thread 9, with priority 5, waits on the semaphore 0
abbrev pub one_waits : Kernel
one_waits = put_before two_ready (suspended 0) 9

pub one_waits-IsReady : IsReady one_waits two_queues
one_waits-IsReady =
    put_before-IsReady two_ready two_queues 0 9 [] [] two_ready-IsReady two_ready-IsRunnable nobody
      off_9 stat_9 tt

pub one_waits-IsRunnable : IsRunnable one_waits two_queues
one_waits-IsRunnable = record { stats = two_ready-IsRunnable.stats }

pub nine_waits : IsWaiting one_waits 0 (9 ∷ [])
nine_waits =
    put_before-IsWaiting two_ready two_queues 0 9 [] [] two_ready-IsReady two_ready-IsRunnable
      nobody off_9 stat_9 tt

pub byte_1 : (one_waits.thread 1).stat < 256
unfolding ℕ_discrete with_stat
byte_1 = omega arith

ipc_list_suspend-prio_example :
    (ipc_list_suspend 5 (suspended 0) 1 flag_prio one_waits
      ≡ some (eok, put_before (suspend_out one_waits 1 3) (tlist 9) 1))
    × IsReady (put_before (suspend_out one_waits 1 3) (tlist 9) 1) (put 3 (2 ∷ []) two_queues)
    × IsRunnable (put_before (suspend_out one_waits 1 3) (tlist 9) 1) (put 3 (2 ∷ []) two_queues)
    × IsWaiting (put_before (suspend_out one_waits 1 3) (tlist 9) 1) 0 (1 ∷ 9 ∷ [])
    × IsSorted (λ u. (one_waits.thread u).current_priority) (1 ∷ 9 ∷ [])
unfolding ℕ_discrete
ipc_list_suspend-prio_example =
    ipc_list_suspend-prio one_waits two_queues 1 3 [] (2 ∷ []) (omega arith) refl byte_1
      one_waits-IsReady one_waits-IsRunnable 0 (9 ∷ []) nine_waits 5 (omega arith) (tt, tt)

pub sleeps_9 : IsSuspended one_waits 9 5
unfolding ℕ_discrete stat_of
sleeps_9 = record {
  in_range = omega arith;
  priority = refl;
  mask = refl;
  byte = omega arith;
  stat = refl;
}

one_waits-IsSem : IsSem one_waits 0 (9 ∷ [])
one_waits-IsSem = record { waiting = nine_waits; busy = inr refl }

sem_release-resumes_example :
    (sem_release 0 one_waits ≡ (schedule >> pure eok) (resume_out one_waits 9 5))
    × IsReady (resume_out one_waits 9 5) (put 5 (two_queues 5 ++ 9 ∷ []) two_queues)
    × IsRunnable (resume_out one_waits 9 5) (put 5 (two_queues 5 ++ 9 ∷ []) two_queues)
    × IsSem (resume_out one_waits 9 5) 0 []
sem_release-resumes_example =
    sem_release-resumes one_waits two_queues 0 9 5 [] sleeps_9 one_waits-IsReady
      one_waits-IsRunnable one_waits-IsSem

-- and thread 1 runs
abbrev taker : Kernel
taker = record one_waits { current = some 1 }

taker-IsReady : IsReady taker two_queues
taker-IsReady =
    let r = one_waits-IsReady in
    record { linked = r.linked; rings = r.rings; bits = r.bits; width = r.width; queued = r.queued }

taker-IsSem : IsSem taker 0 (9 ∷ [])
taker-IsSem = record {
  waiting = record { ring = nine_waits.ring; stats = nine_waits.stats };
  busy = inr refl;
}

abbrev taken : Kernel
taken = put_before (suspend_out (set_error 1 eok taker) 1 3) (suspended 0) 1

sem_take-waits_example :
    (sem_take 5 0 (2 ^ 32 - 1) taker ≡ (schedule >> pure (waits 1)) taken)
    × IsReady taken (put 3 (2 ∷ []) two_queues)
    × IsRunnable taken (put 3 (2 ∷ []) two_queues)
    × IsSem taken 0 (9 ∷ 1 ∷ [])
unfolding ℕ_discrete
sem_take-waits_example =
    sem_take-waits taker two_queues 1 3 [] (2 ∷ []) (omega arith) refl byte_1 taker-IsReady
      (record { stats = one_waits-IsRunnable.stats }) 0 (9 ∷ []) taker-IsSem refl refl refl refl 5

sem_take-no_wait_example : sem_take 5 0 0 blank ≡ some (returns etimeout, blank)
sem_take-no_wait_example = sem_take-no_wait blank 5 0 refl
