-- ===== src/Clock/Tick.antt =====
-- The tick of src/clock.c: the time slice, the conversion from milliseconds, and interrupt nesting.
use rtthread_nano_to_riscv.Thread.{thread_yield}
use rtthread_nano_to_riscv.Prelude.{
  ℕ, ◌+◌, ◌-◌, ◌*◌, ◌%◌, ◌^◌, ◌<◌, ◌≤◌, ◌≡◌, refl, List, [], ◌∷◌, ◌++◌, some, arith, ◌==◌, is_nil,
  false, if_pos, ℕ_discrete,
}
use rtthread_nano_to_riscv.Kernel.{Kernel, set_remaining_tick, priority_max, pure, ◌>>◌, eok}
use rtthread_nano_to_riscv.Scheduler.{schedule}
use rtthread_nano_to_riscv.Scheduler.Queues.{Queues, IsReady, IsRunnable, put}
use rtthread_nano_to_riscv.Thread.Yield.{rotate, thread_yield-IsReady, self-running}
use rtthread_nano_to_riscv.Clock.{
  tick_from_millisecond, time_slice, interrupt_enter, interrupt_leave,
}

-- A delay that is not negative is rounded up to whole ticks of 10 ms: it is never shorter than asked
-- for, it is less than one tick longer, and it is no RT_WAITING_FOREVER.
pub tick_from_millisecond-rounds_up :
    (ms : ℕ)
    → ms < 2 ^ 31
    → (ms ≤ 10 * tick_from_millisecond ms)
      × (10 * tick_from_millisecond ms < ms + 10)
      × (tick_from_millisecond ms < 2 ^ 32 - 1)
unfolding tick_from_millisecond
tick_from_millisecond-rounds_up ms h = ground arith

back : (n : ℕ) → n < 2 ^ 8 → ((n + 1) % 2 ^ 8 + 2 ^ 8 - 1) % 2 ^ 8 ≡ n
back n h = omega arith

-- Each `rt_interrupt_leave` undoes one `rt_interrupt_enter`, for a nesting that fits its byte.
pub interrupt_leave-interrupt_enter :
    (k : Kernel) → k.interrupt_nest < 2 ^ 8 → (interrupt_enter >> interrupt_leave) k ≡ some (tt, k)
unfolding interrupt_enter interrupt_leave
interrupt_leave-interrupt_enter k h = rw (back k.interrupt_nest h) refl

-- the state after a tick that leaves `n` ticks of the time slice to thread `t`
abbrev pub ticked : Kernel → ℕ → ℕ → Kernel
ticked k t n = set_remaining_tick t n (record k { tick = (k.tick + 1) % 2 ^ 32 })

-- and after one that ends it, before the yield
abbrev pub refilled : Kernel → ℕ → Kernel
refilled k t = set_remaining_tick t (k.thread t).init_tick (ticked k t 0)

less_one : (n : ℕ) → 0 < n → n < 2 ^ 32 → (n + 2 ^ 32 - 1) % 2 ^ 32 ≡ n - 1
less_one n p h = omega arith

runs_out : (n : ℕ) → n ≡ 1 → (n + 2 ^ 32 - 1) % 2 ^ 32 ≡ 0
runs_out n e = omega (arith, e)

not_zero : (n : ℕ) → 1 < n → (n - 1 == 0) ≡ false
not_zero n h = ground arith

-- A tick within the time slice counts it down, and the running thread goes on.
pub time_slice-goes_on :
    (k : Kernel) (t : ℕ)
    → k.current ≡ some t
    → 1 < (k.thread t).remaining_tick
    → (k.thread t).remaining_tick < 2 ^ 32
    → time_slice k ≡ some (tt, ticked k t ((k.thread t).remaining_tick - 1))
unfolding time_slice
time_slice-goes_on k t cur one w =
    rw (self-running (record k { tick = (k.tick + 1) % 2 ^ 32 }) t cur) (
      rw (less_one (k.thread t).remaining_tick (omega arith) w) (
        rw
          (if_pos (ℕ_discrete t t) refl ((k.thread t).remaining_tick - 1)
            (k.thread t).remaining_tick)
          (rw (not_zero (k.thread t).remaining_tick one) refl)))

module _ (k : Kernel) (q : Queues) (t p : ℕ) (xs ys : List ℕ) (h : p < priority_max)
    (at_t : q p ≡ xs ++ t ∷ ys) (r : IsReady k q) (n : IsRunnable k q) (cur : k.current ≡ some t)
    (last : (k.thread t).remaining_tick ≡ 1) where
  refilled-IsReady : IsReady (refilled k t) q
  refilled-IsReady = record {
    linked = r.linked;
    rings = r.rings;
    bits = r.bits;
    width = r.width;
    queued = r.queued;
  }

  slice_ends : time_slice k ≡ (thread_yield >> pure tt) (refilled k t)
  unfolding time_slice
  slice_ends = rw (self-running (record k { tick = (k.tick + 1) % 2 ^ 32 }) t cur) (
      rw (runs_out (k.thread t).remaining_tick last)
        (rw (if_pos (ℕ_discrete t t) refl 0 (k.thread t).remaining_tick) refl))

  -- The tick that ends the time slice gives the thread a new one and sends it to the end of the queue of
  -- its priority, if another thread has that priority; the scheduler then chooses from a ready table
  -- that is well formed.
  pub time_slice-IsReady :
      is_nil (xs ++ ys) ≡ false
      → (time_slice k ≡ ((schedule >> pure eok) >> pure tt) (rotate (refilled k t) t p))
        × IsReady (rotate (refilled k t) t p) (put p ((xs ++ ys) ++ t ∷ []) q)
        × IsRunnable (rotate (refilled k t) t p) (put p ((xs ++ ys) ++ t ∷ []) q)
  time_slice-IsReady s =
      let y =
        thread_yield-IsReady (refilled k t) q t p xs ys h at_t refilled-IsReady
          (record { stats = n.stats }) cur s in
      (rw slice_ends (rw y.0 refl), y.1, y.2)
