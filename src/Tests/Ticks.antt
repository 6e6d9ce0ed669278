-- ===== src/Tests/Ticks.antt =====
-- The timer list at concrete states, across the wrap of the tick counter.
use rtthread_nano_to_riscv.Prelude.{◌≡◌, refl, some, [], arith, inl, leb}
use rtthread_nano_to_riscv.Service.Node.{Node, user_timer}
use rtthread_nano_to_riscv.Kernel.{eok}
use rtthread_nano_to_riscv.Timer.{tick_sub, timer_start}
use rtthread_nano_to_riscv.Timer.Order.{insert_due, IsTimerNode}
use rtthread_nano_to_riscv.Timer.Start.{IsTimers, delay, started, timer_start-IsTimers}
use rtthread_nano_to_riscv.Tests.States.{blank, blank-IsTimers}

-- The tick is 8 short of its wrap, and the delay is 20: the timer is due at tick 12.
timer_start-IsTimers_example :
    (l : Node) × (timer_start 1 (user_timer 4) blank ≡ some (eok, started blank (user_timer 4) l))
    × IsTimers (started blank (user_timer 4) l) 0xfffffff8 (
        insert_due (λ u. leb (delay blank 0xfffffff8 u) (tick_sub 12 0xfffffff8)) (user_timer 4) [])
    × (((started blank (user_timer 4) l).timer (user_timer 4)).timeout_tick ≡ 12)
    × IsTimerNode l
unfolding tick_sub
timer_start-IsTimers_example =
    timer_start-IsTimers 1 blank 0xfffffff8 (user_timer 4) [] [] blank-IsTimers
      (inl ((refl, refl), refl)) (omega arith) (record { word = omega arith; near = omega arith })
      (omega arith)
