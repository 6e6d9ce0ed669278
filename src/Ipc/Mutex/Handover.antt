-- ===== src/Ipc/Mutex/Handover.antt =====
-- The last release of a mutex that threads wait for, in src/ipc.c.
use rtthread_nano_to_riscv.Prelude.{
  ℕ, ◌+◌, ◌%◌, ◌^◌, ◌<◌, ◌≡◌, ◌≢◌, refl, ap, ◌∙◌, true, false, ◌==◌, if_pos, ℕ_discrete, some, List,
  [], ◌∷◌, ◌++◌, map, Option, arith, All-split,
}
use rtthread_nano_to_riscv.Service.Node.{suspended, tlist}
use rtthread_nano_to_riscv.Service.Ring.{list_isempty_lem}
use rtthread_nano_to_riscv.Kernel.{Kernel, priority_max, pure, ◌>>◌, Err, eok}
use rtthread_nano_to_riscv.Scheduler.{schedule, thread_entry}
use rtthread_nano_to_riscv.Scheduler.Queues.{Queues, IsReady, IsRunnable, put, IsQueued}
use rtthread_nano_to_riscv.Thread.{change_priority}
use rtthread_nano_to_riscv.Thread.Priority.{change_priority-IsReady, change_priority-IsRunnable}
use rtthread_nano_to_riscv.Thread.Resume.{IsSuspended, resume_out}
use rtthread_nano_to_riscv.Thread.Yield.{self-running}
use rtthread_nano_to_riscv.Ipc.Waiting.{IsWaiting}
use rtthread_nano_to_riscv.Ipc.Resume.{ipc_list_resume-IsReady}
use rtthread_nano_to_riscv.Ipc.Semaphore.{in_thread_context-running}
use rtthread_nano_to_riscv.Ipc.Mutex.{
  set_owner, set_original, set_hold, restore, pass_on, mutex_release,
}
use rtthread_nano_to_riscv.Ipc.Mutex.Owner.{IsOwned, IsRunning, is_owner_self, less_out}
use rtthread_nano_to_riscv.Ipc.Mutex.Inherit.{changed, changed-IsWaiting, changed-IsSuspended}

-- the state with the mutex given to thread `u`
abbrev pub handed : Kernel → ℕ → ℕ → Kernel
handed k i u =
    set_hold i (((k.mutex i).hold + 1) % 2 ^ 8)
      (set_original i ((k.thread u).current_priority % 2 ^ 8) (set_owner i (some u) k))

module _ (k : Kernel) (q : Queues) (i u p : ℕ) (us : List ℕ) (sus : IsSuspended k u p)
    (r : IsReady k q) (n : IsRunnable k q) (w : IsWaiting k i (u ∷ us)) where
  -- The thread that waits first gets the mutex and becomes READY.
  pass_on-IsReady :
      (pass_on i k ≡ some (true, resume_out (handed k i u) u p))
      × IsReady (resume_out (handed k i u) u p) (put p (q p ++ u ∷ []) q)
      × IsRunnable (resume_out (handed k i u) u p) (put p (q p ++ u ∷ []) q)
      × IsWaiting (resume_out (handed k i u) u p) i us
  unfolding pass_on thread_entry
  pass_on-IsReady =
      let out =
        ipc_list_resume-IsReady (handed k i u) q i u p us
          (record {
            in_range = sus.in_range;
            priority = sus.priority;
            mask = sus.mask;
            byte = sus.byte;
            stat = sus.stat;
          })
          (record {
            linked = r.linked;
            rings = r.rings;
            bits = r.bits;
            width = r.width;
            queued = r.queued;
          })
          (record { stats = n.stats }) (record { ring = w.ring; stats = w.stats }) in
      (
        rw (list_isempty_lem k.links (suspended i) (map tlist (u ∷ us)) w.ring)
            (rw w.ring.0.0 (rw out.0 refl)),
        out.1,
        out.2,
        out.3,
      )

module _ (k : Kernel) (q : Queues) (i t p : ℕ) (xs ys : List ℕ) (u pu : ℕ) (us : List ℕ) (p' : ℕ)
    (h : p < priority_max) (h' : p' < priority_max) (at_t : q p ≡ xs ++ t ∷ ys)
    (byte : (k.thread t).stat < 256) (r : IsReady k q) (n : IsRunnable k q) (c : IsRunning k t)
    (o : IsOwned k i t 1 (u ∷ us)) (sus : IsSuspended k u pu) (raised : p' ≢ p)
    (before : (k.mutex i).original_priority ≡ p') where
  -- the queues after the thread's priority fell, and after the new owner joined them
  abbrev q1 : Queues
  q1 = put p (xs ++ ys) q

  abbrev q2 : Queues
  q2 = put p' (q1 p' ++ t ∷ []) q1

  abbrev pub release_queues : Queues
  release_queues = put pu (q2 pu ++ u ∷ []) q2

  abbrev pub release_out : Kernel
  release_out = resume_out (handed (changed (less_out k i) t p p') i u) u pu

  abbrev k1 : Kernel
  k1 = record (less_out k i) { irq = false }

  k1-IsReady : IsReady k1 q
  k1-IsReady = record {
    linked = r.linked;
    rings = r.rings;
    bits = r.bits;
    width = r.width;
    queued = r.queued;
  }

  k1-IsRunnable : IsRunnable k1 q
  k1-IsRunnable = record { stats = n.stats }

  prio_t : (k.thread t).current_priority ≡ p
  prio_t = (All-split (λ u. IsQueued p (k.thread u)) xs (t ∷ ys) (rw (← at_t) (r.queued p h))).1.0.0

  abbrev k2 : Kernel
  k2 = changed k1 t p p'

  falls : restore i t k1 ≡ some (tt, k2)
  unfolding restore
  falls =
      let up = change_priority-IsReady k1 q t p xs ys h at_t byte k1-IsReady k1-IsRunnable p' h' in
      let other =
        differs (k.mutex i).original_priority (k.thread t).current_priority before prio_t in
      rw other (rw (ap (λ p. change_priority t p k1) before ∙ up.0) refl)
    where
      differs : (a b : ℕ) → a ≡ p' → b ≡ p → (a == b) ≡ false
      differs a b e f = ground (arith, raised)

  -- how the call runs, its result kept apart
  releases :
      (out : Option (Err × Kernel))
      → pass_on i k2 ≡ some (true, resume_out (handed k2 i u) u pu)
      → (schedule >> pure eok) release_out ≡ out
      → mutex_release i k ≡ out
  unfolding mutex_release
  releases out d e =
      let gone : ((less_out k i).mutex i).hold ≡ 0 =
        if_pos (ℕ_discrete i i) refl _ (k.mutex i).hold ∙ omega (arith, o.hold) in
      rw (in_thread_context-running k t c.current c.nest) (
        rw (self-running k t c.current)
          (rw o.owner (rw (is_owner_self t) (rw gone (rw falls (rw d e))))))

  -- A thread that inherited a priority and gives back its last hold of a mutex that threads wait for falls
  -- to the priority it had when it took the mutex. The thread that waits first becomes READY as the
  -- owner, and the scheduler chooses again. The mutex and the ready table stay well formed.
  pub mutex_release-hands_over :
      (mutex_release i k ≡ (schedule >> pure eok) release_out)
      × IsOwned release_out i u 1 us
      × ((release_out.thread t).current_priority ≡ p')
      × IsReady release_out release_queues
      × IsRunnable release_out release_queues
  mutex_release-hands_over =
      let up = change_priority-IsReady k1 q t p xs ys h at_t byte k1-IsReady k1-IsRunnable p' h' in
      let runs =
        change_priority-IsRunnable k1 q t p xs ys h at_t byte k1-IsReady k1-IsRunnable p' h' in
      let waits =
        changed-IsWaiting k1 q t p xs ys h at_t k1-IsReady k1-IsRunnable p' i (u ∷ us)
          (record { ring = o.waiting.ring; stats = o.waiting.stats }) in
      let sleeps =
        changed-IsSuspended k1 q t p xs ys h at_t k1-IsReady k1-IsRunnable p' u pu (record {
          in_range = sus.in_range;
          priority = sus.priority;
          mask = sus.mask;
          byte = sus.byte;
          stat = sus.stat;
        }) in
      let d = pass_on-IsReady k2 q2 i u pu us sleeps up.1 (record { stats = runs.stats }) waits in
      let gone : ((less_out k i).mutex i).hold ≡ 0 =
        if_pos (ℕ_discrete i i) refl _ (k.mutex i).hold ∙ omega (arith, o.hold) in
      let o1 = d.1 in
      (
        releases _ d.0 refl,
        record {
          owner = if_pos (ℕ_discrete i i) refl (some u) (k.mutex i).owner;
          value = o.value;
          hold = if_pos (ℕ_discrete i i) refl _ _ ∙ omega (arith, gone);
          positive = omega arith;
          byte = omega arith;
          waiting = record { ring = d.3.ring; stats = d.3.stats };
        },
        if_pos (ℕ_discrete t t) refl p' (k.thread t).current_priority,
        record {
          linked = o1.linked;
          rings = o1.rings;
          bits = o1.bits;
          width = o1.width;
          queued = o1.queued;
        },
        record { stats = d.2.stats },
      )
