-- ===== src/Thread/Yield.antt =====
-- `rt_thread_yield` of src/thread.c.
use mathlib.Core.List.{map-append}
use rtthread_nano_to_riscv.Prelude.{
  ℕ, ◌<◌, ◌≡◌, ◌≢◌, refl, sym, ap, ◌∙◌, subst, List, [], ◌∷◌, ◌++◌, map, some, ℕ_discrete, All,
  All-split, All-append, Avoids, arith, if_pos, if_neg, false, true, is_nil, Distinct-Avoids,
}
use rtthread_nano_to_riscv.Service.Node.{Node, ready, tlist}
use rtthread_nano_to_riscv.Service.Links.{list_remove, insert_before}
use rtthread_nano_to_riscv.Service.Pointers.{IsAlone, list_remove-IsAlone, insert_before-IsLinked}
use rtthread_nano_to_riscv.Service.Seg.{Seg, Seg-split}
use rtthread_nano_to_riscv.Service.Ring.{Ring, Ring-insert_before, Ring-insert_before_frame}
use rtthread_nano_to_riscv.Kernel.{Kernel, stat_of, stat_ready, priority_max, eok, pure, ◌>>◌}
use rtthread_nano_to_riscv.Scheduler.{schedule}
use rtthread_nano_to_riscv.Scheduler.Queues.{
  Queues, IsQueued, IsReady, IsRunnable, put, Avoids-ready, ready_bit,
}
use rtthread_nano_to_riscv.Scheduler.Remove.{take_out, take_out-IsReady, ready_bit-middle}
use rtthread_nano_to_riscv.Thread.{thread_yield, has_company, self}

-- the node that leads out of a segment
abbrev last_node : Node → List Node → Node
last_node a [] = a
last_node a (x ∷ xs) = last_node x xs

next-last_node :
    (f : Node → Node) (a : Node) (xs : List Node) (b : Node) → Seg f a xs b → f (last_node a xs) ≡ b
next-last_node f a [] b p = p
next-last_node f a (x ∷ xs) b p = next-last_node f x xs b p.1

last_node-Avoids : (a n : Node) (xs : List Node) → a ≢ n → Avoids n xs → last_node a xs ≢ n
last_node-Avoids a n [] ne o = ne
last_node-Avoids a n (x ∷ xs) ne o = last_node-Avoids x n xs o.0 o.1

last_node-ready : (a p : ℕ) (xs : List ℕ) → last_node (tlist a) (map tlist xs) ≢ ready p
last_node-ready a p [] = λ e. cc
last_node-ready a p (x ∷ xs) = last_node-ready x p xs

module _ (k : Kernel) (q : Queues) (t p : ℕ) (xs ys : List ℕ) (h : p < priority_max)
    (at_t : q p ≡ xs ++ t ∷ ys) (r : IsReady k q) where
  list_of : Ring k.links (ready p) (map tlist xs ++ tlist t ∷ map tlist ys)
  list_of =
      subst (Ring k.links (ready p)) (ap (map tlist) at_t ∙ map-append tlist xs (t ∷ ys))
        (r.rings p h)

  halves :
      Seg k.links.next (ready p) (map tlist xs) (tlist t)
      × Seg k.links.next (tlist t) (map tlist ys) (ready p)
  halves =
      Seg-split k.links.next (ready p) (map tlist xs) (tlist t) (map tlist ys) (ready p) list_of.0

  before_t : k.links.prev (tlist t) ≡ last_node (ready p) (map tlist xs)
  before_t =
      ap k.links.prev
        (sym (next-last_node k.links.next (ready p) (map tlist xs) (tlist t) halves.0))
      ∙ r.linked.prev_next (last_node (ready p) (map tlist xs))

-- `tlist.next != tlist.prev` says whether other threads have the same priority.
company_alone :
    (k : Kernel) (q : Queues) (t p : ℕ) (h : p < priority_max)
    → q p ≡ t ∷ []
    → IsReady k q
    → has_company t k ≡ false
unfolding has_company
company_alone k q t p h e r =
    ground (arith, before_t k q t p [] [] h e r, (halves k q t p [] [] h e r).1)

company :
    (k : Kernel) (q : Queues) (t p : ℕ) (xs ys : List ℕ) (h : p < priority_max)
    → (e : q p ≡ xs ++ t ∷ ys) → (r : IsReady k q) → is_nil (xs ++ ys) ≡ false
    → has_company t k ≡ true
unfolding has_company
company k q t p [] [] h e r s = cc
company k q t p [] (y ∷ ys) h e r s =
    ground (arith, before_t k q t p [] (y ∷ ys) h e r, (halves k q t p [] (y ∷ ys) h e r).1.0)
company k q t p (x ∷ xs) [] h e r s = ground (
  arith,
  before_t k q t p (x ∷ xs) [] h e r,
  (halves k q t p (x ∷ xs) [] h e r).1,
  last_node-ready x p xs,
)
company k q t p (x ∷ xs) (y ∷ ys) h e r s =
    let apart =
      Distinct-Avoids (map tlist (x ∷ xs)) (tlist t) (tlist y) (map tlist ys)
        (list_of k q t p (x ∷ xs) (y ∷ ys) h e r).1.1 in
    let ne = last_node-Avoids (ready p) (tlist y) (map tlist (x ∷ xs)) (λ e. cc) apart in
    ground (
      arith,
      before_t k q t p (x ∷ xs) (y ∷ ys) h e r,
      (halves k q t p (x ∷ xs) (y ∷ ys) h e r).1.0,
      ne,
    )

pub self-running : (k : Kernel) (t : ℕ) → k.current ≡ some t → self k ≡ some (t, k)
unfolding self
self-running k t cur = rw cur refl

-- `k` with the thread at the end of the queue of priority `p`
abbrev pub rotate : Kernel → ℕ → ℕ → Kernel
rotate k t p = record k {
  links = insert_before (ready p) (tlist t) (list_remove (tlist t) k.links);
}

module _ (k : Kernel) (q : Queues) (t p : ℕ) (xs ys : List ℕ) (h : p < priority_max)
    (at_t : q p ≡ xs ++ t ∷ ys) (r : IsReady k q) (n : IsRunnable k q)
    (cur : k.current ≡ some t) where
  abbrev q' : Queues
  q' = put p ((xs ++ ys) ++ t ∷ []) q

  abbrev out : Kernel
  out = take_out k t p

  out-IsReady : IsReady out (put p (xs ++ ys) q)
  out-IsReady = take_out-IsReady k q t p xs ys h at_t r

  alone : IsAlone out.links (tlist t)
  alone = list_remove-IsAlone k.links (tlist t) r.linked

  ring : (j : ℕ) → j < priority_max → Ring (rotate k t p).links (ready j) (map tlist (q' j))
  ring j l = elim (ℕ_discrete j p) [
    | yes e ↦
        rw (if_pos (ℕ_discrete j p) e, map-append, e)
          (Ring-insert_before out.links (ready p) (tlist t) out-IsReady.linked alone (λ e. cc)
            (map tlist (xs ++ ys)) (rw (if_pos (ℕ_discrete p p) refl) at (out-IsReady.rings p h)))
    | no ne ↦ rw (if_neg (ℕ_discrete j p) ne) (
        Ring-insert_before_frame out.links (ready j) (map tlist (q j))
          (rw (if_neg (ℕ_discrete j p) ne) at (out-IsReady.rings j l)) (ready p) (tlist t)
          out-IsReady.linked alone (λ e. cc) (λ e. cc) (λ e. ne (cc)) (Avoids-ready p (q j)))
  ]

  moved :
      (P : ℕ → ℕ → Type 0)
      → ((j : ℕ) → j < priority_max → All (P j) (q j))
      → (j : ℕ) → j < priority_max
      → All (P j) (q' j)
  moved P a j l = elim (ℕ_discrete j p) [
    | yes e ↦
        let s = All-split (P p) xs (t ∷ ys) (rw (← at_t) (a p h)) in
        rw (if_pos (ℕ_discrete j p) e, e)
          (All-append (P p) (xs ++ ys) (t ∷ []) (All-append (P p) xs ys s.0 s.1.1) (s.1.0, tt))
    | no ne ↦ rw (if_neg (ℕ_discrete j p) ne) (a j l)
  ]

  same_bit : (j : ℕ) → ready_bit (q j) ≡ ready_bit (q' j)
  same_bit j = elim (ℕ_discrete j p) [
    | yes e ↦
        rw (if_pos (ℕ_discrete j p) e, e, at_t, ready_bit-middle xs t ys)
          (sym (ready_bit-middle (xs ++ ys) t []))
    | no ne ↦ rw (if_neg (ℕ_discrete j p) ne)
  ]

  rotate-IsReady : IsReady (rotate k t p) q'
  rotate-IsReady = record {
    linked =
        insert_before-IsLinked out.links (ready p) (tlist t) out-IsReady.linked alone (λ e. cc);
    rings = ring;
    bits = λ j l. r.bits j l ∙ same_bit j;
    width = r.width;
    queued = moved (λ j u. IsQueued j (k.thread u)) r.queued;
  }

  here : IsQueued p (k.thread t)
  here = (All-split (λ u. IsQueued p (k.thread u)) xs (t ∷ ys) (rw (← at_t) (r.queued p h))).1.0

  runs : stat_of (k.thread t).stat ≡ stat_ready
  runs =
      (All-split (λ u. stat_of (k.thread u).stat ≡ stat_ready) xs (t ∷ ys)
        (rw (← at_t) (n.stats p h))).1.0

  -- The running thread goes to the end of the queue of its priority and the scheduler chooses again, if
  -- another thread has that priority; the ready table stays well formed.
  pub thread_yield-IsReady :
      is_nil (xs ++ ys) ≡ false
      → (thread_yield k ≡ (schedule >> pure eok) (rotate k t p))
        × IsReady (rotate k t p) (put p ((xs ++ ys) ++ t ∷ []) q)
        × IsRunnable (rotate k t p) (put p ((xs ++ ys) ++ t ∷ []) q)
  unfolding thread_yield
  thread_yield-IsReady s = (
    rw (cur, runs, company k q t p xs ys h at_t r s, here.0) (rw cur refl),
    rotate-IsReady,
    record { stats = moved (λ j u. stat_of (k.thread u).stat ≡ stat_ready) n.stats },
  )

  -- With no other thread of its priority ready, the running thread goes on, and nothing changes.
  pub thread_yield-alone : xs ≡ [] → ys ≡ [] → thread_yield k ≡ some (eok, k)
  unfolding thread_yield
  thread_yield-alone ex ey =
      rw (cur, runs, company_alone k q t p h (rw (ex, ey) at at_t) r) (rw cur refl)
