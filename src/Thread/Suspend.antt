-- ===== src/Thread/Suspend.antt =====
-- `rt_thread_suspend` of src/thread.c.
use rtthread_nano_to_riscv.Prelude.{
  ℕ, ◌<◌, ◌≡◌, ◌≢◌, refl, List, ◌∷◌, ◌++◌, map, some, ℕ_discrete, All, All-split, All-append, arith,
  if_pos, if_neg, ◌==◌, ==_iff, false, true,
}
use rtthread_nano_to_riscv.Prelude.Bits.{upto, upto-lt}
use rtthread_nano_to_riscv.Service.Node.{ready, tlist, thread_timer}
use rtthread_nano_to_riscv.Service.Pointers.{IsAlone, list_remove-IsAlone}
use rtthread_nano_to_riscv.Service.Ring.{Ring-Avoids}
use rtthread_nano_to_riscv.Kernel.{
  Kernel, set_stat, stat_of, with_stat, stat_ready, stat_suspend, priority_max, eok, error,
}
use rtthread_nano_to_riscv.Scheduler.Queues.{Queues, IsReady, IsRunnable, put, All-frame}
use rtthread_nano_to_riscv.Scheduler.Remove.{take_out, take_out-IsReady, remove_thread-take_out}
use rtthread_nano_to_riscv.Timer.Stop.{
  flag_of, stopped, timer_stop_lem, flag_of-stopped, stopped-IsReady, stopped-IsAlone,
}
use rtthread_nano_to_riscv.Thread.{thread_suspend}

suspend_table : upto 256 (λ s. stat_of (with_stat stat_suspend s) == stat_suspend) ≡ true
unfolding upto stat_of with_stat
suspend_table = refl

stat_of-suspend : (s : ℕ) → s < 256 → stat_of (with_stat stat_suspend s) ≡ stat_suspend
stat_of-suspend s h = (==_iff _ _).0 (upto-lt 256 _ s suspend_table h)

-- A thread that is not READY is not suspended: the call is an error and changes nothing.
pub thread_suspend-error :
    (k : Kernel) (t : ℕ)
    → stat_of (k.thread t).stat ≢ stat_ready
    → thread_suspend t k ≡ some (error, k)
unfolding thread_suspend
thread_suspend-error k t ne = ground arith

-- the state after a successful call on a thread of priority `p`
abbrev pub suspend_out : Kernel → ℕ → ℕ → Kernel
suspend_out k t p =
    stopped (take_out (set_stat t (with_stat stat_suspend (k.thread t).stat) k) t p)
      (thread_timer t)

module _ (k : Kernel) (q : Queues) (t p : ℕ) (xs ys : List ℕ) (h : p < priority_max)
    (at_t : q p ≡ xs ++ t ∷ ys) (byte : (k.thread t).stat < 256) (r : IsReady k q)
    (n : IsRunnable k q) where
  abbrev k' : Kernel
  k' = suspend_out k t p

  abbrev k1 : Kernel
  k1 = record (set_stat t (with_stat stat_suspend (k.thread t).stat) k) { irq = false }

  k1-IsReady : IsReady k1 q
  k1-IsReady = record {
    linked = r.linked;
    rings = r.rings;
    bits = r.bits;
    width = r.width;
    queued = r.queued;
  }

  was_ready : stat_of (k.thread t).stat ≡ stat_ready
  was_ready =
      (All-split (λ u. stat_of (k.thread u).stat ≡ stat_ready) xs (t ∷ ys)
        (rw (← at_t) (n.stats p h))).1.0

  result : thread_suspend t k ≡ some (eok, k')
  unfolding thread_suspend
  result =
      rw was_ready
        (rw (remove_thread-take_out k1 q t p xs ys h at_t k1-IsReady) (rw timer_stop_lem refl))

  abbrev q' : Queues
  q' = put p (xs ++ ys) q

  k2-IsReady : IsReady (set_stat t (with_stat stat_suspend (k.thread t).stat) k) q
  k2-IsReady = record {
    linked = r.linked;
    rings = r.rings;
    bits = r.bits;
    width = r.width;
    queued = r.queued;
  }

  abbrev k3 : Kernel
  k3 = take_out (set_stat t (with_stat stat_suspend (k.thread t).stat) k) t p

  k3-IsReady : IsReady k3 q'
  k3-IsReady = take_out-IsReady _ q t p xs ys h at_t k2-IsReady

  k3-IsAlone : IsAlone k3.links (tlist t)
  k3-IsAlone = list_remove-IsAlone k.links (tlist t) r.linked

  old : (j : ℕ) → j < priority_max → All (λ u. stat_of (k.thread u).stat ≡ stat_ready) (q' j)
  old j l = elim (ℕ_discrete j p) [
    | yes e ↦
        let parts =
          All-split (λ u. stat_of (k.thread u).stat ≡ stat_ready) xs (t ∷ ys)
            (rw (← at_t) (n.stats p h)) in
        rw (if_pos (ℕ_discrete j p) e)
          (All-append (λ u. stat_of (k.thread u).stat ≡ stat_ready) xs ys parts.0 parts.1.1)
    | no ne ↦ rw (if_neg (ℕ_discrete j p) ne) (n.stats j l)
  ]

  runnable : IsRunnable k' q'
  runnable = record {
    stats = λ j l.
        All-frame (λ u. stat_of (k.thread u).stat ≡ stat_ready)
          (λ u. stat_of (k'.thread u).stat ≡ stat_ready) t
          (λ u ne a. rw (if_neg (ℕ_discrete u t) ne) a) (q' j)
          (Ring-Avoids k3.links (ready j) (tlist t) (map tlist (q' j)) k3-IsAlone (λ e. cc)
            (k3-IsReady.rings j l))
          (old j l);
  }

  -- A READY thread of priority `p` is taken off its queue and made SUSPEND, its timer is stopped, and its
  -- list node is free to be put on a wait list. The other threads keep their places and stay READY, the
  -- ready table stays well formed, the call returns RT_EOK, and interrupts are enabled or not as before.
  pub thread_suspend-IsReady :
      (thread_suspend t k ≡ some (eok, suspend_out k t p))
      × IsReady (suspend_out k t p) (put p (xs ++ ys) q)
      × IsRunnable (suspend_out k t p) (put p (xs ++ ys) q)
      × (stat_of ((suspend_out k t p).thread t).stat ≡ stat_suspend)
      × IsAlone (suspend_out k t p).links (tlist t)
      × (flag_of (suspend_out k t p) (thread_timer t) ≡ 0)
  thread_suspend-IsReady = (
    result,
    stopped-IsReady k3 (thread_timer t) q' k3-IsReady,
    runnable,
    rw (if_pos (ℕ_discrete t t) refl) (stat_of-suspend (k.thread t).stat byte),
    stopped-IsAlone k3 (thread_timer t) q' k3-IsReady (tlist t) k3-IsAlone,
    flag_of-stopped k3 (thread_timer t),
  )
