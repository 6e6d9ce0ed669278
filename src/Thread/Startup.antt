-- ===== src/Thread/Startup.antt =====
-- `rt_thread_startup` of src/thread.c.
use rtthread_nano_to_riscv.Prelude.{
  ℕ, ◌^◌, ◌<◌, ◌≡◌, refl, [], ◌∷◌, ◌++◌, map, some, if_pos, if_neg, ℕ_discrete, Avoids, arith,
}
use rtthread_nano_to_riscv.Service.Node.{tlist}
use rtthread_nano_to_riscv.Kernel.{
  Kernel, set_stat, stat_of, stat_ready, stat_suspend, stat_init, priority_max, eok, pure, ◌>>◌,
}
use rtthread_nano_to_riscv.Scheduler.{schedule}
use rtthread_nano_to_riscv.Scheduler.Queues.{
  Queues, IsReady, IsRunnable, put, not_queued, All-frame,
}
use rtthread_nano_to_riscv.Thread.{thread_startup}
use rtthread_nano_to_riscv.Thread.Resume.{IsSuspended, resume_out, thread_resume-IsReady}
use rtthread_nano_to_riscv.Thread.Priority.{
  with_priority, with_priority-IsReady, priority_mask-eq-pow,
}

-- `k` with the thread suspended, at its first priority
abbrev pub prepared : Kernel → ℕ → Kernel
prepared k t = set_stat t stat_suspend (with_priority k t (k.thread t).init_priority)

-- and with the thread on its queue
abbrev pub started : Kernel → ℕ → Kernel
started k t = resume_out (prepared k t) t (k.thread t).init_priority

module _ (k : Kernel) (q : Queues) (t c : ℕ) (r : IsReady k q) (n : IsRunnable k q)
    (init : stat_of (k.thread t).stat ≡ stat_init) (h : (k.thread t).init_priority < priority_max)
    (cur : k.current ≡ some c) where
  abbrev p : ℕ
  p = (k.thread t).init_priority

  off : (j : ℕ) → j < priority_max → Avoids (tlist t) (map tlist (q j))
  off = not_queued k q t n (λ e. omega (arith, e, init))

  prepared-IsReady : IsReady (prepared k t) q
  prepared-IsReady =
      let o = with_priority-IsReady k q t p r off in
      record {
        linked = o.linked;
        rings = o.rings;
        bits = o.bits;
        width = o.width;
        queued = o.queued;
      }

  prepared-IsRunnable : IsRunnable (prepared k t) q
  prepared-IsRunnable = record {
    stats = λ j l.
        All-frame (λ u. stat_of (k.thread u).stat ≡ stat_ready)
          (λ u. stat_of ((prepared k t).thread u).stat ≡ stat_ready) t
          (λ u ne a. rw (if_neg (ℕ_discrete u t) ne) a) (q j) (off j l) (n.stats j l);
  }

  prepared-IsSuspended : IsSuspended (prepared k t) t p
  unfolding stat_of
  prepared-IsSuspended = record {
    in_range = h;
    priority = if_pos (ℕ_discrete t t) refl p (k.thread t).current_priority;
    mask = if_pos (ℕ_discrete t t) refl (2 ^ p) (k.thread t).number_mask;
    byte = rw (if_pos (ℕ_discrete t t) refl stat_suspend (k.thread t).stat) (omega arith);
    stat = rw (if_pos (ℕ_discrete t t) refl stat_suspend (k.thread t).stat) refl;
  }

  -- A thread in its first state gets its first priority and becomes READY at the end of the queue of
  -- that priority; while another thread runs, the scheduler then chooses again, from a ready table that
  -- is well formed.
  pub thread_startup-IsReady :
      (thread_startup t k ≡ (schedule >> pure eok) (started k t))
      × IsReady
          (started k t)
          (put (k.thread t).init_priority (q (k.thread t).init_priority ++ t ∷ []) q)
      × IsRunnable
          (started k t)
          (put (k.thread t).init_priority (q (k.thread t).init_priority ++ t ∷ []) q)
  unfolding thread_startup
  thread_startup-IsReady =
      let out =
        thread_resume-IsReady (prepared k t) q t p prepared-IsSuspended prepared-IsReady
          prepared-IsRunnable in
      (rw (init) (rw (priority_mask-eq-pow p h) (rw out.0 (rw cur refl))), out.1, out.2)
