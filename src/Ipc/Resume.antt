-- ===== src/Ipc/Resume.antt =====
-- `rt_ipc_list_resume` of src/ipc.c.
use rtthread_nano_to_riscv.Scheduler.{thread_entry}
use rtthread_nano_to_riscv.Prelude.{
  ℕ, ◌≡◌, refl, List, [], ◌∷◌, ◌++◌, map, some, if_neg, ℕ_discrete,
}
use rtthread_nano_to_riscv.Service.Node.{suspended, ready, tlist, thread_timer}
use rtthread_nano_to_riscv.Service.Pointers.{list_remove-IsLinked}
use rtthread_nano_to_riscv.Service.Ring.{Ring, Ring-list_remove, Ring-insert_before_frame}
use rtthread_nano_to_riscv.Kernel.{Kernel, stat_of, stat_suspend, eok}
use rtthread_nano_to_riscv.Scheduler.Queues.{
  Queues, IsReady, IsRunnable, put, Avoids-ready, All-frame,
}
use rtthread_nano_to_riscv.Thread.Resume.{
  IsSuspended, off_list, resume_out, thread_resume-IsReady, off_lists-IsReady, resume_fits,
}
use rtthread_nano_to_riscv.Timer.Stop.{stopped}
use rtthread_nano_to_riscv.Ipc.{ipc_list_resume}
use rtthread_nano_to_riscv.Ipc.Waiting.{IsWaiting}
use rtthread_nano_to_riscv.Ipc.Suspend.{stopped-Ring}

module _ (k : Kernel) (q : Queues) (s u p : ℕ) (us : List ℕ) (i : IsSuspended k u p)
    (r : IsReady k q) (n : IsRunnable k q) (w : IsWaiting k s (u ∷ us)) where
  abbrev k1 : Kernel
  k1 = stopped (off_list k u) (thread_timer u)

  others : Ring k1.links (suspended s) (map tlist us)
  others =
      stopped-Ring (off_list k u) (thread_timer u) s us
        (list_remove-IsLinked k.links (tlist u) r.linked)
        (Ring-list_remove k.links (suspended s) (tlist u) r.linked [] (map tlist us) w.ring)

  pub resume_out-IsWaiting : IsWaiting (resume_out k u p) s us
  resume_out-IsWaiting = record {
    ring =
        Ring-insert_before_frame k1.links (suspended s) (map tlist us) others (ready p) (tlist u)
          (off_lists-IsReady k q u p i r n).linked (resume_fits k q u p i r n).alone (λ e. cc)
          (λ e. cc) (λ e. cc) (Avoids-ready p us);
    stats =
        All-frame (λ v. stat_of (k.thread v).stat ≡ stat_suspend)
          (λ v. stat_of ((resume_out k u p).thread v).stat ≡ stat_suspend) u
          (λ v ne a. rw (if_neg (ℕ_discrete v u) ne) a) us w.ring.1.1.0 w.stats.1;
  }

  -- `rt_ipc_list_resume`: the thread that waits first becomes READY, at the end of the queue of its priority; the others go on
  -- waiting in their order, and the ready table stays well formed.
  pub ipc_list_resume-IsReady :
      (ipc_list_resume (suspended s) k ≡ some (eok, resume_out k u p))
      × IsReady (resume_out k u p) (put p (q p ++ u ∷ []) q)
      × IsRunnable (resume_out k u p) (put p (q p ++ u ∷ []) q)
      × IsWaiting (resume_out k u p) s us
  unfolding ipc_list_resume thread_entry
  ipc_list_resume-IsReady =
      let out = thread_resume-IsReady k q u p i r n in
      (rw w.ring.0.0 (rw out.0 refl), out.1, out.2, resume_out-IsWaiting)
