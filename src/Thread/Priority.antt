-- ===== src/Thread/Priority.antt =====
-- `rt_thread_startup` and RT_THREAD_CTRL_CHANGE_PRIORITY of src/thread.c.
use rtthread_nano_to_riscv.Prelude.{
  ℕ, ◌^◌, ◌<◌, ◌≡◌, refl, List, [], ◌∷◌, ◌++◌, map, some, ℕ_discrete, All, All-split, All-append,
  if_pos, if_neg, false, Avoids,
}
use rtthread_nano_to_riscv.Prelude.Bits.{pow-lt}
use native.Mathlib.Nat.{mod-eq_of_lt}
use rtthread_nano_to_riscv.Service.Node.{ready, tlist}
use rtthread_nano_to_riscv.Service.Pointers.{IsAlone, list_remove-IsAlone}
use rtthread_nano_to_riscv.Service.Ring.{Ring-Avoids}
use rtthread_nano_to_riscv.Kernel.{
  Kernel, set_priority, set_mask, stat_of, stat_ready, priority_max, eok,
}
use rtthread_nano_to_riscv.Scheduler.Queues.{Queues, IsQueued, IsReady, IsRunnable, put, All-frame}
use rtthread_nano_to_riscv.Scheduler.Insert.{
  IsInsertable, queue_up, insert_thread-queue_up, queue_up-IsReady, queue_up-IsRunnable,
}
use rtthread_nano_to_riscv.Scheduler.Remove.{take_out, take_out-IsReady, remove_thread-take_out}
use rtthread_nano_to_riscv.Thread.{change_priority, priority_mask}

-- A priority in range has its own bit of the mask.
pub priority_mask-eq-pow : (p : ℕ) → p < priority_max → priority_mask p ≡ 2 ^ p
unfolding priority_mask
priority_mask-eq-pow p h = mod-eq_of_lt (pow-lt 32 p h)

-- `k` with another priority for the thread
abbrev pub with_priority : Kernel → ℕ → ℕ → Kernel
with_priority k t p = set_mask t (2 ^ p) (set_priority t p k)

module _ (k : Kernel) (q : Queues) (t p : ℕ) (r : IsReady k q)
    (off : (j : ℕ) → j < priority_max → Avoids (tlist t) (map tlist (q j))) where
  pub with_priority-IsReady : IsReady (with_priority k t p) q
  with_priority-IsReady = record {
    linked = r.linked;
    rings = r.rings;
    bits = r.bits;
    width = r.width;
    queued = λ j h.
        All-frame (λ u. IsQueued j (k.thread u)) (λ u. IsQueued j ((with_priority k t p).thread u))
          t (λ u ne a. (rw (if_neg (ℕ_discrete u t) ne) a.0, rw (if_neg (ℕ_discrete u t) ne) a.1))
          (q j) (off j h) (r.queued j h);
  }

module _ (k : Kernel) (q : Queues) (t p : ℕ) (xs ys : List ℕ) (h : p < priority_max)
    (at_t : q p ≡ xs ++ t ∷ ys) (byte : (k.thread t).stat < 256) (r : IsReady k q)
    (n : IsRunnable k q) (p' : ℕ) (h' : p' < priority_max) where
  abbrev q1 : Queues
  q1 = put p (xs ++ ys) q

  abbrev k1 : Kernel
  k1 = with_priority (take_out k t p) t p'

  out-IsReady : IsReady (take_out k t p) q1
  out-IsReady = take_out-IsReady k q t p xs ys h at_t r

  alone : IsAlone k1.links (tlist t)
  alone = list_remove-IsAlone k.links (tlist t) r.linked

  k1-IsReady : IsReady k1 q1
  k1-IsReady = with_priority-IsReady (take_out k t p) q1 t p' out-IsReady (λ j l.
      Ring-Avoids k1.links (ready j) (tlist t) (map tlist (q1 j)) alone (λ e. cc)
        (out-IsReady.rings j l))

  fits : IsInsertable k1 t p'
  fits = record {
    in_range = h';
    priority = if_pos (ℕ_discrete t t) refl p' (k.thread t).current_priority;
    mask = if_pos (ℕ_discrete t t) refl (2 ^ p') (k.thread t).number_mask;
    byte = byte;
    alone = alone;
  }

  runs : stat_of (k.thread t).stat ≡ stat_ready
  runs =
      (All-split (λ u. stat_of (k.thread u).stat ≡ stat_ready) xs (t ∷ ys)
        (rw (← at_t) (n.stats p h))).1.0

  abbrev k0 : Kernel
  k0 = record k { irq = false }

  k0-IsReady : IsReady k0 q
  k0-IsReady = record {
    linked = r.linked;
    rings = r.rings;
    bits = r.bits;
    width = r.width;
    queued = r.queued;
  }

  abbrev k1' : Kernel
  k1' = record k1 { irq = false }

  k1'-IsReady : IsReady k1' q1
  k1'-IsReady =
      let o = k1-IsReady in
      record {
        linked = o.linked;
        rings = o.rings;
        bits = o.bits;
        width = o.width;
        queued = o.queued;
      }

  fits' : IsInsertable k1' t p'
  fits' =
      let f = fits in
      record {
        in_range = f.in_range;
        priority = f.priority;
        mask = f.mask;
        byte = f.byte;
        alone = f.alone;
      }

  changes : change_priority t p' k ≡ some (eok, queue_up k1 t p')
  unfolding change_priority
  changes = rw runs (
      rw (remove_thread-take_out k0 q t p xs ys h at_t k0-IsReady) (
        rw (priority_mask-eq-pow p' h')
          (rw (insert_thread-queue_up k1' q1 t p' fits' k1'-IsReady) refl)))

  old : (j : ℕ) → j < priority_max → All (λ u. stat_of (k.thread u).stat ≡ stat_ready) (q1 j)
  old j l = elim (ℕ_discrete j p) [
    | yes e ↦
        let parts =
          All-split (λ u. stat_of (k.thread u).stat ≡ stat_ready) xs (t ∷ ys)
            (rw (← at_t) (n.stats p h)) in
        rw (if_pos (ℕ_discrete j p) e)
          (All-append (λ u. stat_of (k.thread u).stat ≡ stat_ready) xs ys parts.0 parts.1.1)
    | no ne ↦ rw (if_neg (ℕ_discrete j p) ne) (n.stats j l)
  ]

  -- the queued threads are READY afterwards
  pub change_priority-IsRunnable : IsRunnable (queue_up k1 t p') (put p' (q1 p' ++ t ∷ []) q1)
  change_priority-IsRunnable =
      queue_up-IsRunnable k1 q1 t p' fits k1-IsReady (record { stats = old })

  -- A READY thread whose priority changes leaves the queue of the old priority `p` and goes to the end of
  -- that of the new priority `p'`. The others keep their places, and the ready table, its bitmap
  -- included, stays well formed.
  pub change_priority-IsReady :
      (change_priority t p' k ≡ some (eok, queue_up (with_priority (take_out k t p) t p') t p'))
      × IsReady (queue_up (with_priority (take_out k t p) t p') t p') (put p' (q1 p' ++ t ∷ []) q1)
  change_priority-IsReady = (changes, queue_up-IsReady k1 q1 t p' fits k1-IsReady)
