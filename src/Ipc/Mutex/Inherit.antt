-- ===== src/Ipc/Mutex/Inherit.antt =====
-- A thread that has to wait for a mutex of src/ipc.c, and the owner of the mutex.
use rtthread_nano_to_riscv.Prelude.{
  ℕ, ◌<◌, ◌≡◌, ◌≢◌, ap, ◌∙◌, subst, false, if_neg, ℕ_discrete, List, [], ◌∷◌, ◌++◌, map, All-split,
  arith,
}
use rtthread_nano_to_riscv.Service.Node.{suspended, ready, tlist}
use rtthread_nano_to_riscv.Service.Links.{list_remove}
use rtthread_nano_to_riscv.Service.Pointers.{list_remove-IsLinked, list_remove-IsAlone}
use rtthread_nano_to_riscv.Service.Ring.{Ring-list_remove_frame, Ring-insert_before_frame}
use rtthread_nano_to_riscv.Kernel.{
  Kernel, set_error, stat_of, stat_ready, stat_suspend, priority_max, eok,
}
use rtthread_nano_to_riscv.Scheduler.Queues.{
  Queues, IsQueued, IsReady, IsRunnable, put, Avoids-ready, Avoids-state, All-frame,
}
use rtthread_nano_to_riscv.Scheduler.Insert.{queue_up}
use rtthread_nano_to_riscv.Scheduler.Remove.{take_out}
use rtthread_nano_to_riscv.Thread.Priority.{with_priority}
use rtthread_nano_to_riscv.Thread.Resume.{IsSuspended}
use rtthread_nano_to_riscv.Thread.Suspend.{suspend_out}
use rtthread_nano_to_riscv.Ipc.{flag_fifo}
use rtthread_nano_to_riscv.Ipc.Waiting.{IsWaiting, put_before}
use rtthread_nano_to_riscv.Ipc.Mutex.Owner.{IsOwned, IsRunning}

-- the state after a READY thread got the priority `p'`
abbrev pub changed : Kernel → ℕ → ℕ → ℕ → Kernel
changed k t p p' = queue_up (with_priority (take_out k t p) t p') t p'

module _ (k : Kernel) (q : Queues) (t p : ℕ) (xs ys : List ℕ) (h : p < priority_max)
    (at_t : q p ≡ xs ++ t ∷ ys) (r : IsReady k q) (n : IsRunnable k q) (p' : ℕ) where
  runs : stat_of (k.thread t).stat ≡ stat_ready
  runs =
      (All-split (λ u. stat_of (k.thread u).stat ≡ stat_ready) xs (t ∷ ys)
        (rw (← at_t) (n.stats p h))).1.0

  -- The threads on a wait list stay there.
  pub changed-IsWaiting :
      (i : ℕ) (ws : List ℕ) → IsWaiting k i ws → IsWaiting (changed k t p p') i ws
  changed-IsWaiting i ws w =
      let apart =
        Avoids-state (λ u. stat_of (k.thread u).stat) t stat_suspend (λ e. omega (arith, runs, e))
          ws w.stats in
      let out =
        Ring-list_remove_frame k.links (suspended i) (map tlist ws) w.ring (tlist t) r.linked
          (λ e. cc) apart in
      record {
        ring =
            Ring-insert_before_frame (list_remove (tlist t) k.links) (suspended i) (map tlist ws)
              out (ready p') (tlist t) (list_remove-IsLinked k.links (tlist t) r.linked)
              (list_remove-IsAlone k.links (tlist t) r.linked) (λ e. cc) (λ e. cc) (λ e. cc)
              (Avoids-ready p' ws);
        stats =
            All-frame (λ u. stat_of (k.thread u).stat ≡ stat_suspend)
              (λ u. stat_of ((changed k t p p').thread u).stat ≡ stat_suspend) t
              (λ u ne a. rw (if_neg (ℕ_discrete u t) ne) a) ws apart w.stats;
      }

  pub changed-IsSuspended : (u pu : ℕ) → IsSuspended k u pu → IsSuspended (changed k t p p') u pu
  changed-IsSuspended u pu s =
      let ne : u ≢ t = λ e. other u t e s.stat runs in
      record {
        in_range = s.in_range;
        priority = if_neg (ℕ_discrete u t) ne _ _ ∙ s.priority;
        mask = if_neg (ℕ_discrete u t) ne _ _ ∙ s.mask;
        byte = rw (if_neg (ℕ_discrete u t) ne) s.byte;
        stat = rw (if_neg (ℕ_discrete u t) ne) s.stat;
      }
    where
      other :
          (u t : ℕ)
          → u ≡ t
          → stat_of (k.thread u).stat ≡ stat_suspend
          → stat_of (k.thread t).stat ≡ stat_ready
          → ⊥
      other u t e a b = absurd (
          clash (stat_of (k.thread t).stat)
            (subst (λ v. stat_of (k.thread v).stat ≡ stat_suspend) e a) b)
        where
          clash : (n : ℕ) → n ≡ stat_suspend → n ≡ stat_ready → ⊥
          clash n a b = omega arith

module _ (k : Kernel) (q : Queues) (o po : ℕ) (xs ys : List ℕ) (t pt : ℕ) (xs' ys' : List ℕ)
    (h : po < priority_max) (l : pt < po) (at_o : q po ≡ xs ++ o ∷ ys)
    (at_t : q pt ≡ xs' ++ t ∷ ys') (byte_o : (k.thread o).stat < 256)
    (byte_t : (k.thread t).stat < 256) (r : IsReady k q) (n : IsRunnable k q) where
  -- the state with the error number reset and the owner's priority raised, the queues, and the state at
  -- the call of `rt_schedule`
  abbrev k0 : Kernel
  k0 = set_error t eok k

  abbrev pub raised : Kernel
  raised = changed k0 o po pt

  abbrev q1 : Queues
  q1 = put po (xs ++ ys) q

  abbrev q2 : Queues
  q2 = put pt (q1 pt ++ o ∷ []) q1

  abbrev pub wait_out : ℕ → Kernel
  wait_out i = put_before (suspend_out raised t pt) (suspended i) t

  abbrev pub wait_queues : Queues
  wait_queues = put pt (xs' ++ (ys' ++ o ∷ [])) q2

  prio_o : (k.thread o).current_priority ≡ po
  prio_o =
      (All-split (λ u. IsQueued po (k.thread u)) xs (o ∷ ys) (rw (← at_o) (r.queued po h))).1.0.0

  prio_t : (k.thread t).current_priority ≡ pt
  prio_t =
      (All-split (λ u. IsQueued pt (k.thread u)) xs' (t ∷ ys')
        (rw (← at_t) (r.queued pt (omega (arith, l, h))))).1.0.0

  apart : o ≢ t
  apart e = other (ap (λ u. (k.thread u).current_priority) e)
    where
      other : (k.thread o).current_priority ≡ (k.thread t).current_priority → ⊥
      other e = omega (arith, e, prio_o, prio_t, l)

  module _ (i m : ℕ) (ws : List ℕ) (c : IsRunning k t) (w : IsOwned k i o m ws)
      (flag : (k.mutex i).flag ≡ flag_fifo) where
    abbrev k1 : Kernel
    k1 = record k0 { irq = false }

    abbrev k2 : Kernel
    k2 = record raised { irq = false }
