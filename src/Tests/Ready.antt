-- ===== src/Tests/Ready.antt =====
-- The ready queues at concrete states.
use rtthread_nano_to_riscv.Prelude.{
  ℕ, ◌-◌, ◌≤◌, ◌<◌, ◌≡◌, refl, some, [], ◌∷◌, ◌++◌, arith, ℕ_discrete,
}
use rtthread_nano_to_riscv.Kservice.Ffs.{ffs, lowest_bit}
use rtthread_nano_to_riscv.Kservice.Ffs.Bytes.{IsLowest}
use rtthread_nano_to_riscv.Kservice.Ffs.Lowest.{ffs-IsLowest}
use rtthread_nano_to_riscv.Service.Node.{tlist}
use rtthread_nano_to_riscv.Service.Pointers.{IsAlone}
use rtthread_nano_to_riscv.Kernel.{Kernel, context_switch_interrupt}
use rtthread_nano_to_riscv.Scheduler.{insert_thread, remove_thread, schedule}
use rtthread_nano_to_riscv.Scheduler.Queues.{IsReady, IsRunnable, put}
use rtthread_nano_to_riscv.Scheduler.Insert.{queue_up, insert_thread-IsReady}
use rtthread_nano_to_riscv.Scheduler.Remove.{take_out, remove_thread-IsReady}
use rtthread_nano_to_riscv.Scheduler.Choose.{IsTop, schedule-top, schedule-locked}
use rtthread_nano_to_riscv.Tests.States.{
  one_ready, one_queue, one_ready-IsReady, one_ready-IsRunnable, second_fits, two_ready, two_queues,
  two_ready-IsReady,
}

ffs_runs : (ffs 0x50000 ≡ 17) × (ffs 0x80000000 ≡ 32) × (ffs 0 ≡ 0)
unfolding ffs lowest_bit
ffs_runs = (refl, refl, refl)

ffs-IsLowest_example : IsLowest 0x50000 (ffs 0x50000 - 1) × (1 ≤ ffs 0x50000) × (ffs 0x50000 ≤ 32)
ffs-IsLowest_example = ffs-IsLowest 0x50000 (omega arith) (omega arith)

insert_thread-IsReady_example :
    (insert_thread 2 one_ready ≡ some (tt, queue_up one_ready 2 3))
    × IsReady (queue_up one_ready 2 3) (put 3 (one_queue 3 ++ 2 ∷ []) one_queue)
    × IsRunnable (queue_up one_ready 2 3) (put 3 (one_queue 3 ++ 2 ∷ []) one_queue)
insert_thread-IsReady_example =
    insert_thread-IsReady one_ready one_queue 2 3 second_fits one_ready-IsReady one_ready-IsRunnable

remove_thread-IsReady_example :
    (remove_thread 1 two_ready ≡ some (tt, take_out two_ready 1 3))
    × IsReady (take_out two_ready 1 3) (put 3 (2 ∷ []) two_queues)
    × IsAlone (take_out two_ready 1 3).links (tlist 1)
unfolding ℕ_discrete
remove_thread-IsReady_example =
    remove_thread-IsReady two_ready two_queues 1 3 [] (2 ∷ []) (omega arith) refl two_ready-IsReady

-- thread 2 runs, and thread 1 is in front
abbrev running_2 : Kernel
running_2 = record two_ready { current = some 2; interrupt_nest = 1 }

running_2-IsReady : IsReady running_2 two_queues
running_2-IsReady =
    let r = two_ready-IsReady in
    record { linked = r.linked; rings = r.rings; bits = r.bits; width = r.width; queued = r.queued }

above_3 : (j : ℕ) → j < 3 → two_queues j ≡ []
above_3 j l = ground arith

front_1 : IsTop two_queues 3 1
unfolding ℕ_discrete
front_1 = record { in_range = omega arith; rest = 2 ∷ []; front = refl; above = above_3 }

schedule-top_example :
    schedule running_2
    ≡ some (
      tt,
      record running_2 {
        current = some 1;
        current_priority = 3;
        switches = context_switch_interrupt 2 1 ∷ [];
      },
    )
schedule-top_example = schedule-top running_2 two_queues 3 1 running_2-IsReady front_1 2 refl refl

schedule-locked_example :
    schedule (record two_ready { lock_nest = 2 }) ≡ some (tt, record two_ready { lock_nest = 2 })
schedule-locked_example = schedule-locked (record two_ready { lock_nest = 2 }) (omega arith)
