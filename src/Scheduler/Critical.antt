-- ===== src/Scheduler/Critical.antt =====
-- `rt_enter_critical` and `rt_exit_critical` of src/scheduler.c.
use rtthread_nano_to_riscv.Prelude.{ℕ, ◌^◌, ◌<◌, ◌≡◌, refl, some, false, arith}
use rtthread_nano_to_riscv.Kernel.{Kernel, ◌>>◌}
use rtthread_nano_to_riscv.Scheduler.{
  enter_critical, exit_critical, increment16, decrement16, le_zero16, schedule,
}

back : (n : ℕ) → n < 2 ^ 15 → decrement16 (increment16 n) ≡ n
unfolding increment16 decrement16
back n h = omega arith

still_locked : (n : ℕ) → 0 < n → n < 2 ^ 15 → le_zero16 n ≡ false
unfolding le_zero16
still_locked n p h = ground arith

-- In a critical section, at a nesting of less than 2 ^ 15, an inner one leaves the kernel as it was:
-- the scheduler stays locked.
pub exit_critical-enter_critical :
    (k : Kernel)
    → 0 < k.lock_nest
    → k.lock_nest < 2 ^ 15
    → (enter_critical >> exit_critical) k ≡ some (tt, k)
unfolding enter_critical exit_critical
exit_critical-enter_critical k p h =
    rw (back k.lock_nest h) (rw (still_locked k.lock_nest p h) refl)

-- The end of an outermost critical section does what `rt_schedule` does, when a
-- thread runs.
pub exit_critical-outermost :
    (k : Kernel) (t : ℕ)
    → k.lock_nest ≡ 0
    → k.current ≡ some t
    → (enter_critical >> exit_critical) k ≡ schedule k
unfolding enter_critical exit_critical increment16 decrement16 le_zero16 schedule
exit_critical-outermost k t z cur = rw (z, cur) refl
