-- ===== src/Scheduler/Remove.antt =====
-- `rt_schedule_remove_thread` of src/scheduler.c on a well-formed ready table.
use Prim.Native.Nat.{bit_and}
use mathlib.Core.List.{map-append}
use rtthread_nano_to_riscv.Prelude.{
  ℕ, ◌^◌, ◌<◌, ◌≡◌, ◌≢◌, refl, Bool-cases, inl, inr, is_nil, lt→ltb, List, [], ◌∷◌, ◌++◌, map, some,
  ite, ℕ_discrete, All, All-append, All-split, Avoids, arith, if_pos, if_neg, if◌then◌else◌, subst,
  ap, ◌∙◌,
}
use rtthread_nano_to_riscv.Prelude.Bits.{
  bit, bit-bit_and, bit-complement, bit-pow_self, bit-pow_ne, bit-le-one, bit_and-le, pow-lt,
}
use rtthread_nano_to_riscv.Service.Node.{ready, tlist}
use rtthread_nano_to_riscv.Service.Links.{list_remove, list_isempty}
use rtthread_nano_to_riscv.Service.Pointers.{IsAlone, list_remove-IsLinked, list_remove-IsAlone}
use rtthread_nano_to_riscv.Service.Ring.{
  Ring, Ring-list_remove, Ring-list_remove_frame, list_isempty_lem,
}
use rtthread_nano_to_riscv.Kernel.{Kernel, Thread, priority_max, complement}
use rtthread_nano_to_riscv.Scheduler.{remove_thread}
use rtthread_nano_to_riscv.Scheduler.Queues.{Queues, IsQueued, IsReady, ready_bit, put}

-- A thread of priority `p` is on no queue of another priority.
Avoids-queued :
    (f : ℕ → Thread) (p t j : ℕ)
    → IsQueued p (f t)
    → j ≢ p
    → (ts : List ℕ) → All (λ u. IsQueued j (f u)) ts
    → Avoids (tlist t) (map tlist ts)
Avoids-queued f p t j i ne [] a = tt
Avoids-queued f p t j i ne (u ∷ ts) a = (
  λ e.
      ne (
        ground (arith, a.0.0, i.0, ap (λ (v : ℕ). (f v).current_priority) (tlist-injective u t e))),
  Avoids-queued f p t j i ne ts a.1,
)
  where
    tlist-injective : (u t : ℕ) → tlist u ≡ tlist t → u ≡ t
    tlist-injective u t e = cc

is_nil-map : (ts : List ℕ) → is_nil (map tlist ts) ≡ is_nil ts
is_nil-map [] = refl
is_nil-map (t ∷ ts) = refl

ready_bit-is_nil : (ts : List ℕ) → ready_bit ts ≡ (if is_nil ts then 0 else 1)
ready_bit-is_nil [] = refl
ready_bit-is_nil (t ∷ ts) = refl

pub ready_bit-middle : (xs : List ℕ) (t : ℕ) (ys : List ℕ) → ready_bit (xs ++ t ∷ ys) ≡ 1
ready_bit-middle [] t ys = refl
ready_bit-middle (x ∷ xs) t ys = refl

-- the state after the call, for a thread of priority `p`
abbrev pub take_out : Kernel → ℕ → ℕ → Kernel
take_out k t p = record k {
  links = list_remove (tlist t) k.links;
  ready_group =
      if list_isempty (ready p) (list_remove (tlist t) k.links)
      then bit_and k.ready_group (complement (2 ^ p))
      else k.ready_group;
}

module _ (k : Kernel) (q : Queues) (t p : ℕ) (xs ys : List ℕ) (h : p < priority_max)
    (at_t : q p ≡ xs ++ t ∷ ys) (r : IsReady k q) where
  abbrev q' : Queues
  q' = put p (xs ++ ys) q

  here : IsQueued p (k.thread t)
  here = (All-split (λ u. IsQueued p (k.thread u)) xs (t ∷ ys) (rw (← at_t) (r.queued p h))).1.0

  abbrev k' : Kernel
  k' = take_out k t p

  pub remove_thread-take_out : remove_thread t k ≡ some (tt, k')
  unfolding remove_thread
  remove_thread-take_out =
      elim (Bool-cases (list_isempty (ready p) (list_remove (tlist t) k.links))) [
        | inl e ↦ rw here.0 (rw (lt→ltb _ _ h) (rw e (rw here.1)))
        | inr e ↦ rw here.0 (rw (lt→ltb _ _ h) (rw e))
      ]

  was_set : ready_bit (q p) ≡ 1
  was_set = rw at_t (ready_bit-middle xs t ys)

  own_list : Ring k.links (ready p) (map tlist xs ++ tlist t ∷ map tlist ys)
  own_list =
      subst (Ring k.links (ready p)) (ap (map tlist) at_t ∙ map-append tlist xs (t ∷ ys))
        (r.rings p h)

  ring : (j : ℕ) → j < priority_max → Ring k'.links (ready j) (map tlist (q' j))
  ring j l = elim (ℕ_discrete j p) [
    | yes e ↦
        rw (if_pos (ℕ_discrete j p) e, map-append, e)
          (Ring-list_remove k.links (ready p) (tlist t) r.linked (map tlist xs) (map tlist ys)
            own_list)
    | no ne ↦ rw (if_neg (ℕ_discrete j p) ne) (
        Ring-list_remove_frame k.links (ready j) (map tlist (q j)) (r.rings j l) (tlist t) r.linked
          (λ e. cc) (Avoids-queued k.thread p t j here ne (q j) (r.queued j l)))
  ]

  isempty : list_isempty (ready p) k'.links ≡ is_nil (xs ++ ys)
  isempty =
      list_isempty_lem k'.links (ready p) (map tlist (xs ++ ys))
        (rw (if_pos (ℕ_discrete p p) refl) at (ring p h))
      ∙ is_nil-map (xs ++ ys)

  clear_bits :
      (j : ℕ)
      → j < priority_max
      → bit (bit_and k.ready_group (complement (2 ^ p))) j
        ≡ ite (ℕ_discrete j p) 0 (bit k.ready_group j)
  clear_bits j l =
      let c = bit-complement 32 (2 ^ p) j (pow-lt 32 p h) l in
      elim (ℕ_discrete j p) [
        | yes e ↦ rw (if_pos (ℕ_discrete j p) e, bit-bit_and, c, e, bit-pow_self) (omega arith)
        | no ne ↦
            rw (if_neg (ℕ_discrete j p) ne, bit-bit_and, c, bit-pow_ne p j ne)
              (omega (arith, bit-le-one k.ready_group j))
      ]

  bits : (j : ℕ) → j < priority_max → bit k'.ready_group j ≡ ready_bit (q' j)
  bits j l = ground (
    arith,
    Bool-cases (list_isempty (ready p) k'.links),
    isempty,
    ready_bit-is_nil (xs ++ ys),
    clear_bits j l,
    r.bits j l,
    was_set,
  )

  k'-width : k'.ready_group < 2 ^ 32
  k'-width = ground (arith, bit_and-le k.ready_group (complement (2 ^ p)), r.width)

  queued : (j : ℕ) → j < priority_max → All (λ u. IsQueued j (k'.thread u)) (q' j)
  queued j l = elim (ℕ_discrete j p) [
    | yes e ↦ rw (if_pos (ℕ_discrete j p) e) (
        let old =
          All-split (λ u. IsQueued j (k.thread u)) xs (t ∷ ys)
            (rw e (rw (← at_t) (r.queued p h))) in
        All-append (λ u. IsQueued j (k.thread u)) xs ys old.0 old.1.1)
    | no ne ↦ rw (if_neg (ℕ_discrete j p) ne) (r.queued j l)
  ]

  pub take_out-IsReady : IsReady (take_out k t p) (put p (xs ++ ys) q)
  take_out-IsReady = record {
    linked = list_remove-IsLinked k.links (tlist t) r.linked;
    rings = ring;
    bits = bits;
    width = k'-width;
    queued = queued;
  }

  -- `rt_schedule_remove_thread` takes a queued thread out of its queue and leaves it on no list. The
  -- order of the other threads stays, the bitmap still says which queues are empty, and interrupts
  -- are enabled or not as before.
  pub remove_thread-IsReady :
      (remove_thread t k ≡ some (tt, take_out k t p))
      × IsReady (take_out k t p) (put p (xs ++ ys) q)
      × IsAlone (take_out k t p).links (tlist t)
  remove_thread-IsReady =
      (remove_thread-take_out, take_out-IsReady, list_remove-IsAlone k.links (tlist t) r.linked)
