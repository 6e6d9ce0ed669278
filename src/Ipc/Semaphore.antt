-- ===== src/Ipc/Semaphore.antt =====
-- The semaphores of src/ipc.c.
use rtthread_nano_to_riscv.Thread.Yield.{self-running}
use rtthread_nano_to_riscv.Prelude.{
  ℕ, ◌+◌, ◌-◌, ◌%◌, ◌^◌, ◌<◌, ◌≡◌, refl, List, [], ◌∷◌, ◌++◌, map, some, arith, ltb, lt→ltb, true,
  false, inl, inr, ◌⊎◌,
}
use rtthread_nano_to_riscv.Service.Node.{suspended, tlist}
use rtthread_nano_to_riscv.Service.Ring.{list_isempty_lem}
use rtthread_nano_to_riscv.Kernel.{Kernel, set_error, priority_max, eok, etimeout, pure, ◌>>◌}
use rtthread_nano_to_riscv.Scheduler.{schedule}
use rtthread_nano_to_riscv.Scheduler.Queues.{Queues, IsReady, IsRunnable, put}
use rtthread_nano_to_riscv.Thread.Resume.{IsSuspended, resume_out}
use rtthread_nano_to_riscv.Thread.Suspend.{suspend_out}
use rtthread_nano_to_riscv.Ipc.{
  sem_take, sem_release, set_value, returns, waits, flag_fifo, in_thread_context,
}
use rtthread_nano_to_riscv.Ipc.Waiting.{IsWaiting, put_before}
use rtthread_nano_to_riscv.Ipc.Resume.{ipc_list_resume-IsReady}
use rtthread_nano_to_riscv.Ipc.Suspend.{ipc_list_suspend-fifo}

-- A semaphore that `ws` wait for: threads wait only while no token is left.
pub record IsSem (k : Kernel) (s : ℕ) (ws : List ℕ) : Type 0 where
  pub waiting : IsWaiting k s ws
  pub busy : (ws ≡ []) ⊎ ((k.sem s).value ≡ 0)

pub in_thread_context-running :
    (k : Kernel) (t : ℕ)
    → k.current ≡ some t
    → k.interrupt_nest ≡ 0
    → in_thread_context k ≡ some (tt, k)
unfolding in_thread_context
in_thread_context-running k t cur nest = rw (cur, nest) refl

pred_lt : (n : ℕ) → 0 < n → ltb 0 n ≡ true
pred_lt n h = lt→ltb 0 n h

-- With a token `rt_sem_take` takes it, whatever the time to wait, and the semaphore stays well formed.
pub sem_take-IsSem :
    (k : Kernel) (fuel s time : ℕ) (ws : List ℕ)
    → 0 < (k.sem s).value
    → IsSem k s ws
    → (sem_take fuel s time k ≡ some (returns eok, set_value s ((k.sem s).value - 1) k))
      × IsSem (set_value s ((k.sem s).value - 1) k) s ws
unfolding sem_take
sem_take-IsSem k fuel s time ws h i = (
  rw (pred_lt (k.sem s).value h) refl,
  record {
    waiting = record { ring = i.waiting.ring; stats = i.waiting.stats };
    busy = elim i.busy [ inl e ↦ inl e | inr e ↦ absurd (omega (arith, e, h)) ];
  },
)

-- Without a token and without time to wait, the call returns -RT_ETIMEOUT and changes nothing.
pub sem_take-no_wait :
    (k : Kernel) (fuel s : ℕ)
    → (k.sem s).value ≡ 0
    → sem_take fuel s 0 k ≡ some (returns etimeout, k)
unfolding sem_take
sem_take-no_wait k fuel s h = rw h refl

module _ (k : Kernel) (q : Queues) (t p : ℕ) (xs ys : List ℕ) (h : p < priority_max)
    (at_t : q p ≡ xs ++ t ∷ ys) (byte : (k.thread t).stat < 256) (r : IsReady k q)
    (n : IsRunnable k q) (s : ℕ) (ws : List ℕ) (i : IsSem k s ws) (cur : k.current ≡ some t)
    (nest : k.interrupt_nest ≡ 0) (none_left : (k.sem s).value ≡ 0)
    (flag : (k.sem s).flag ≡ flag_fifo) where
  -- the state at the call of `rt_schedule`
  abbrev out : Kernel
  out = put_before (suspend_out (set_error t eok k) t p) (suspended s) t

  abbrev k1 : Kernel
  k1 = record (set_error t eok k) { irq = false }

  abbrev k0 : Kernel
  k0 = record k { irq = false }

  k1-IsReady : IsReady k1 q
  k1-IsReady = record {
    linked = r.linked;
    rings = r.rings;
    bits = r.bits;
    width = r.width;
    queued = r.queued;
  }

  -- Without a token a thread that takes a FIFO semaphore, outside interrupts and with
  -- RT_WAITING_FOREVER, leaves the ready table and goes to the end of the wait list; then the scheduler chooses the next thread. The
  -- semaphore and the ready table stay well formed.
  pub sem_take-waits :
      (fuel : ℕ)
      → (sem_take fuel s (2 ^ 32 - 1) k ≡ (schedule >> pure (waits t)) out)
        × IsReady out (put p (xs ++ ys) q)
        × IsRunnable out (put p (xs ++ ys) q)
        × IsSem out s (ws ++ t ∷ [])
  unfolding sem_take
  sem_take-waits fuel =
      let put_off =
        ipc_list_suspend-fifo k1 q t p xs ys h at_t byte k1-IsReady (record { stats = n.stats }) s
          ws (record { ring = i.waiting.ring; stats = i.waiting.stats }) fuel in
      let o = put_off.1 in
      (
        rw none_left (
            rw (in_thread_context-running k0 t cur nest)
              (rw (self-running k0 t cur) (rw flag (rw put_off.0 refl)))),
        record {
          linked = o.linked;
          rings = o.rings;
          bits = o.bits;
          width = o.width;
          queued = o.queued;
        },
        record { stats = put_off.2.stats },
        record {
          waiting = record { ring = put_off.3.ring; stats = put_off.3.stats };
          busy = inr none_left;
        },
      )

-- With nobody waiting `rt_sem_release` adds a token, modulo the 16 bits of the count, and the semaphore
-- stays well formed.
pub sem_release-IsSem :
    (k : Kernel) (s : ℕ)
    → IsSem k s []
    → (sem_release s k ≡ some (eok, set_value s (((k.sem s).value + 1) % 2 ^ 16) k))
      × IsSem (set_value s (((k.sem s).value + 1) % 2 ^ 16) k) s []
unfolding sem_release
sem_release-IsSem k s i = (
  rw (list_isempty_lem k.links (suspended s) [] i.waiting.ring) refl,
  record { waiting = record { ring = i.waiting.ring; stats = i.waiting.stats }; busy = inl refl },
)

module _ (k : Kernel) (q : Queues) (s u p : ℕ) (us : List ℕ) (sus : IsSuspended k u p)
    (r : IsReady k q) (n : IsRunnable k q) (i : IsSem k s (u ∷ us)) where
  abbrev k2 : Kernel
  k2 = record k { irq = false }

  k2-IsReady : IsReady k2 q
  k2-IsReady = record {
    linked = r.linked;
    rings = r.rings;
    bits = r.bits;
    width = r.width;
    queued = r.queued;
  }

  k2-IsSuspended : IsSuspended k2 u p
  k2-IsSuspended = record {
    in_range = sus.in_range;
    priority = sus.priority;
    mask = sus.mask;
    byte = sus.byte;
    stat = sus.stat;
  }

  value_zero : (u ∷ us ≡ []) ⊎ ((k.sem s).value ≡ 0) → (k.sem s).value ≡ 0
  value_zero (inl e) = cc
  value_zero (inr e) = e

  -- With threads waiting `rt_sem_release` adds no token: the one that waits first becomes READY with the token, the
  -- others go on waiting, the scheduler chooses again, and the semaphore and the ready table stay well
  -- formed.
  pub sem_release-resumes :
      (sem_release s k ≡ (schedule >> pure eok) (resume_out k u p))
      × IsReady (resume_out k u p) (put p (q p ++ u ∷ []) q)
      × IsRunnable (resume_out k u p) (put p (q p ++ u ∷ []) q)
      × IsSem (resume_out k u p) s us
  unfolding sem_release
  sem_release-resumes =
      let out =
        ipc_list_resume-IsReady k2 q s u p us k2-IsSuspended k2-IsReady (record { stats = n.stats })
          (record { ring = i.waiting.ring; stats = i.waiting.stats }) in
      let o = out.1 in
      (
        rw (list_isempty_lem k.links (suspended s) (map tlist (u ∷ us)) i.waiting.ring)
            (rw out.0 refl),
        record {
          linked = o.linked;
          rings = o.rings;
          bits = o.bits;
          width = o.width;
          queued = o.queued;
        },
        record { stats = out.2.stats },
        record {
          waiting = record { ring = out.3.ring; stats = out.3.stats };
          busy = inr (value_zero i.busy);
        },
      )
