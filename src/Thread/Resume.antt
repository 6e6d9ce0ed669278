-- ===== src/Thread/Resume.antt =====
-- `rt_thread_resume` and `rt_thread_timeout` of src/thread.c.
use rtthread_nano_to_riscv.Prelude.{
  ℕ, ◌^◌, ◌<◌, ◌≡◌, ◌≢◌, refl, [], ◌∷◌, ◌++◌, some, arith, if_pos, ℕ_discrete,
}
use rtthread_nano_to_riscv.Service.Node.{tlist, thread_timer}
use rtthread_nano_to_riscv.Service.Links.{list_remove}
use rtthread_nano_to_riscv.Service.Pointers.{IsAlone, list_remove-IsAlone}
use rtthread_nano_to_riscv.Kernel.{
  Kernel, set_error, stat_of, stat_ready, stat_suspend, priority_max, eok, error, etimeout,
}
use rtthread_nano_to_riscv.Scheduler.{schedule}
use rtthread_nano_to_riscv.Scheduler.Queues.{Queues, IsReady, IsRunnable, put, not_queued}
use rtthread_nano_to_riscv.Scheduler.Frame.{IsReady-list_remove}
use rtthread_nano_to_riscv.Scheduler.Insert.{
  IsInsertable, queue_up, insert_thread-queue_up, queue_up-IsReady, queue_up-IsRunnable,
}
use rtthread_nano_to_riscv.Timer.Stop.{stopped, timer_stop_lem, stopped-IsReady, stopped-IsAlone}
use rtthread_nano_to_riscv.Thread.{thread_resume, thread_timeout}

-- A thread that is not suspended is not resumed: the call is an error and changes nothing.
pub thread_resume-error :
    (k : Kernel) (t : ℕ)
    → stat_of (k.thread t).stat ≢ stat_suspend
    → thread_resume t k ≡ some (error, k)
unfolding thread_resume
thread_resume-error k t ne = ground arith

-- A suspended thread whose priority is `p`; it may be on a wait list or on none.
pub record IsSuspended (k : Kernel) (t p : ℕ) : Type 0 where
  pub in_range : p < priority_max
  pub priority : (k.thread t).current_priority ≡ p
  pub mask : (k.thread t).number_mask ≡ 2 ^ p
  pub byte : (k.thread t).stat < 256
  pub stat : stat_of (k.thread t).stat ≡ stat_suspend

-- `k` with the thread off the list that it waits on
abbrev pub off_list : Kernel → ℕ → Kernel
off_list k t = record k { links = list_remove (tlist t) k.links }

-- the states after a successful `rt_thread_resume`, and before the reschedule of `rt_thread_timeout`
abbrev pub resume_out : Kernel → ℕ → ℕ → Kernel
resume_out k t p = queue_up (stopped (off_list k t) (thread_timer t)) t p

abbrev pub timeout_out : Kernel → ℕ → ℕ → Kernel
timeout_out k t p = queue_up (off_list (set_error t etimeout k) t) t p

module _ (k : Kernel) (q : Queues) (t p : ℕ) (i : IsSuspended k t p) (r : IsReady k q)
    (n : IsRunnable k q) where
  not_ready : stat_of (k.thread t).stat ≢ stat_ready
  not_ready e = omega (arith, i.stat)

  off_list-IsReady : IsReady (off_list k t) q
  off_list-IsReady = IsReady-list_remove k q r (tlist t) (λ p e. cc) (not_queued k q t n not_ready)

  off_list-IsAlone : IsAlone (off_list k t).links (tlist t)
  off_list-IsAlone = list_remove-IsAlone k.links (tlist t) r.linked

  abbrev k1 : Kernel
  k1 = stopped (off_list k t) (thread_timer t)

  pub off_lists-IsReady : IsReady k1 q
  off_lists-IsReady = stopped-IsReady (off_list k t) (thread_timer t) q off_list-IsReady

  pub resume_fits : IsInsertable k1 t p
  resume_fits = record {
    in_range = i.in_range;
    priority = i.priority;
    mask = i.mask;
    byte = i.byte;
    alone =
        stopped-IsAlone (off_list k t) (thread_timer t) q off_list-IsReady (tlist t)
          off_list-IsAlone;
  }

  resumes : thread_resume t k ≡ some (eok, resume_out k t p)
  unfolding thread_resume
  resumes =
      rw i.stat (
        rw timer_stop_lem (rw (insert_thread-queue_up k1 q t p resume_fits off_lists-IsReady) refl))

  -- A suspended thread is taken off the list that it waits on, its timer is stopped, and it becomes
  -- READY at the end of the queue of its priority. The other threads keep their places, the ready table
  -- stays well formed, the call returns RT_EOK, and interrupts are enabled or not as before.
  pub thread_resume-IsReady :
      (thread_resume t k ≡ some (eok, resume_out k t p))
      × IsReady (resume_out k t p) (put p (q p ++ t ∷ []) q)
      × IsRunnable (resume_out k t p) (put p (q p ++ t ∷ []) q)
  thread_resume-IsReady = (
    resumes,
    queue_up-IsReady k1 q t p resume_fits off_lists-IsReady,
    queue_up-IsRunnable k1 q t p resume_fits off_lists-IsReady (record { stats = n.stats }),
  )

  abbrev k2 : Kernel
  k2 = off_list (set_error t etimeout k) t

  k2-IsReady : IsReady k2 q
  k2-IsReady =
      let o = off_list-IsReady in
      record {
        linked = o.linked;
        rings = o.rings;
        bits = o.bits;
        width = o.width;
        queued = o.queued;
      }

  fits_2 : IsInsertable k2 t p
  fits_2 = record {
    in_range = i.in_range;
    priority = i.priority;
    mask = i.mask;
    byte = i.byte;
    alone = off_list-IsAlone;
  }

  -- When the timer of a suspended thread runs out, the thread gets the error -RT_ETIMEOUT, leaves the
  -- list that it waits on and becomes READY at the end of the queue of its priority; then the scheduler
  -- chooses again, from a ready table that is well formed.
  pub thread_timeout-IsReady :
      (thread_timeout t k ≡ schedule (timeout_out k t p))
      × (((timeout_out k t p).thread t).error ≡ etimeout)
      × IsReady (timeout_out k t p) (put p (q p ++ t ∷ []) q)
      × IsRunnable (timeout_out k t p) (put p (q p ++ t ∷ []) q)
  unfolding thread_timeout
  thread_timeout-IsReady = (
    rw i.stat (rw (insert_thread-queue_up k2 q t p fits_2 k2-IsReady) refl),
    if_pos (ℕ_discrete t t) refl etimeout (k.thread t).error,
    queue_up-IsReady k2 q t p fits_2 k2-IsReady,
    queue_up-IsRunnable k2 q t p fits_2 k2-IsReady (record { stats = n.stats }),
  )
