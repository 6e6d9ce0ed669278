-- ===== src/Service/Slist/Walks.antt =====
-- The singly linked lists of include/rtservice.h, read as lists of nodes.
use rtthread_nano_to_riscv.Prelude.{
  ℕ, zero, suc, ◌+◌, ◌<◌, ◌≡◌, refl, sym, ap, ◌∙◌, subst, ite, ℕ_discrete, if_pos, if_neg, Option,
  none, some, List, [], ◌∷◌, ◌++◌, length, arith, Avoids, Avoids-split, Distinct, Distinct-delete,
  Distinct-insert, append-nil,
}
use rtthread_nano_to_riscv.Service.Chain.{Chain, Chain-frame, Chain-append, last_or, last_or-ne}
use rtthread_nano_to_riscv.Service.Slist.{
  set_single, slist_insert, slist_tail, slist_append, slist_len, slist_len_loop, find_before,
  slist_remove,
}

-- The list behind the head `l` is `xs`.
pub record IsSlist (next : ℕ → Option ℕ) (l : ℕ) (xs : List ℕ) : Type 0 where
  pub chain : Chain next (next l) xs
  pub distinct : Distinct (l ∷ xs)

-- The walk ends at the last node, given more fuel than there are nodes.
slist_tail_lem :
    (next : ℕ → Option ℕ) (fuel l : ℕ) (xs : List ℕ)
    → length xs < fuel
    → Chain next (next l) xs
    → slist_tail fuel l next ≡ some (last_or l xs)
unfolding slist_tail
slist_tail_lem next zero l xs f c = absurd (omega arith)
slist_tail_lem next (suc fuel) l [] f c = rw (c, slist_tail) refl
slist_tail_lem next (suc fuel) l (x ∷ xs) f c =
    rw (c.0, slist_tail) (slist_tail_lem next fuel x xs (omega arith) c.1)

slist_len_loop_lem :
    (next : ℕ → Option ℕ) (fuel len : ℕ) (p : Option ℕ) (xs : List ℕ)
    → length xs < fuel
    → Chain next p xs
    → slist_len_loop fuel p len next ≡ some (len + length xs)
unfolding slist_len_loop
slist_len_loop_lem next zero len p xs f c = absurd (omega arith)
slist_len_loop_lem next (suc fuel) len p [] f c = rw c (ap some (omega arith))
slist_len_loop_lem next (suc fuel) len p (x ∷ xs) f c =
    rw c.0
      (slist_len_loop_lem next fuel (len + 1) (next x) xs (omega arith) c.1 ∙ ap some (omega arith))

-- `rt_slist_len` gives the number of nodes, given more fuel than there are.
pub slist_len_lem :
    (next : ℕ → Option ℕ) (fuel l : ℕ) (xs : List ℕ)
    → IsSlist next l xs
    → length xs < fuel
    → slist_len fuel l next ≡ some (length xs)
unfolding slist_len
slist_len_lem next fuel l xs s f =
    slist_len_loop_lem next fuel 0 (next l) xs f s.chain ∙ ap some (omega arith)

-- `rt_slist_insert` puts the node first.
pub slist_insert-IsSlist :
    (next : ℕ → Option ℕ) (l n : ℕ) (xs : List ℕ)
    → IsSlist next l xs
    → Avoids n (l ∷ xs)
    → IsSlist (slist_insert l n next) l (n ∷ xs)
unfolding slist_insert
slist_insert-IsSlist next l n xs s o = record {
  chain = (
    if_pos (ℕ_discrete l l) refl (some n) _,
    subst (λ p. Chain (slist_insert l n next) p xs)
        (sym (
          if_neg (ℕ_discrete n l) (λ e. o.0 (sym e)) _ _
          ∙ if_pos (ℕ_discrete n n) refl (next l) (next n)))
        (Chain-frame (set_single n (next l) next) l (some n) (next l) xs s.distinct.0
          (Chain-frame next n (next l) (next l) xs o.1 s.chain)),
  );
  distinct = (((λ e. o.0 (sym e)), s.distinct.0), (o.1, s.distinct.1));
}

Chain-congr :
    (f g : ℕ → Option ℕ) (p : Option ℕ) (xs : List ℕ)
    → ((a : ℕ) → g a ≡ f a)
    → Chain f p xs
    → Chain g p xs
Chain-congr f g p [] e c = c
Chain-congr f g p (x ∷ xs) e c =
    (c.0, subst (λ r. Chain g r xs) (sym (e x)) (Chain-congr f g (f x) xs e c.1))

-- the list after `n` was put behind its last node
abbrev pub append_out : (ℕ → Option ℕ) → ℕ → ℕ → List ℕ → ℕ → Option ℕ
append_out next l n xs = set_single n none (set_single (last_or l xs) (some n) next)

-- its two writes in the other order
swap :
    (next : ℕ → Option ℕ) (l n : ℕ) (xs : List ℕ)
    → Avoids n (l ∷ xs)
    → (a : ℕ)
    → append_out next l n xs a ≡ set_single (last_or l xs) (some n) (set_single n none next) a
swap next l n xs o a = elim (ℕ_discrete a n) [
  | yes e ↦
      if_pos (ℕ_discrete a n) e none _
      ∙ sym (
          if_neg (ℕ_discrete a (last_or l xs)) (λ q. last_or-ne n l xs o (sym e ∙ q)) (some n) _
          ∙ if_pos (ℕ_discrete a n) e none (next a))
  | no ne ↦
      if_neg (ℕ_discrete a n) ne none _
      ∙ ap (λ v. ite (ℕ_discrete a (last_or l xs)) (some n) v)
          (sym (if_neg (ℕ_discrete a n) ne none (next a)))
]

-- `rt_slist_append` puts a node that is not on the list behind the others, which stay in their order; the walk
-- ends, given more fuel than there are nodes.
pub slist_append-IsSlist :
    (next : ℕ → Option ℕ) (fuel l n : ℕ) (xs : List ℕ)
    → IsSlist next l xs
    → Avoids n (l ∷ xs)
    → length xs < fuel
    → (slist_append fuel l n next ≡ some (append_out next l n xs))
      × IsSlist (append_out next l n xs) l (xs ++ n ∷ [])
unfolding slist_append
slist_append-IsSlist next fuel l n xs s o f =
    let next0 : ℕ → Option ℕ = set_single n none next in
    let ends =
      Chain-append next0 n (some l) l xs (if_pos (ℕ_discrete n n) refl none (next n)) s.distinct o (
        refl,
        subst (λ p. Chain next0 p xs) (sym (if_neg (ℕ_discrete l n) o.0 none (next l)))
            (Chain-frame next n none (next l) xs o.1 s.chain),
      ) in
    (
      rw (slist_tail_lem next fuel l xs f s.chain) refl,
      record {
        chain =
            Chain-congr (set_single (last_or l xs) (some n) next0) (append_out next l n xs)
              (append_out next l n xs l) (xs ++ n ∷ []) (swap next l n xs o)
              (subst (λ p. Chain (set_single (last_or l xs) (some n) next0) p (xs ++ n ∷ []))
                (sym (swap next l n xs o l)) ends.1);
        distinct = Distinct-insert n (l ∷ xs) [] (rw append-nil s.distinct) (rw append-nil o);
      },
    )

find_before_lem :
    (next : ℕ → Option ℕ) (fuel l n : ℕ) (xs ys : List ℕ)
    → length xs < fuel
    → Avoids n xs
    → Chain next (next l) (xs ++ n ∷ ys)
    → (find_before fuel l n next ≡ some (last_or l xs)) × (next (last_or l xs) ≡ some n)
unfolding find_before
find_before_lem next zero l n xs ys f o c = absurd (omega arith)
find_before_lem next (suc fuel) l n [] ys f o c =
    (rw (c.0, find_before) (if_pos (ℕ_discrete n n) refl _ _), c.0)
find_before_lem next (suc fuel) l n (x ∷ xs) ys f o c =
    let rest = find_before_lem next fuel x n xs ys (omega arith) o.1 c.1 in
    (rw (c.0, find_before) (if_neg (ℕ_discrete x n) o.0 _ _ ∙ rest.0), rest.1)

-- the list without the node behind the first ones
abbrev pub remove_out : (ℕ → Option ℕ) → ℕ → ℕ → List ℕ → ℕ → Option ℕ
remove_out next l n xs = set_single (last_or l xs) (next n) next

removed :
    (next : ℕ → Option ℕ) (l n : ℕ) (xs ys : List ℕ)
    → Distinct (l ∷ (xs ++ n ∷ ys))
    → Chain next (next l) (xs ++ n ∷ ys)
    → Chain (remove_out next l n xs) (remove_out next l n xs l) (xs ++ ys)
removed next l n [] ys d c =
    subst (λ p. Chain (remove_out next l n []) p ys)
      (sym (if_pos (ℕ_discrete l l) refl (next n) (next l)))
      (Chain-frame next l (next n) (next n) ys d.0.1 c.1)
removed next l n (x ∷ xs) ys d c =
    let first = (Avoids-split l (x ∷ xs) (n ∷ ys) d.0).0 in
    (
      if_neg (ℕ_discrete l (last_or x xs)) (last_or-ne l x xs first) (next n) (next l) ∙ c.0,
      removed next x n xs ys d.1 c.1,
    )

-- `rt_slist_remove` takes a node out of its list, and the others stay in their order; the walk ends, given
-- more fuel than there are nodes in front.
pub slist_remove-IsSlist :
    (next : ℕ → Option ℕ) (fuel l n : ℕ) (xs ys : List ℕ)
    → IsSlist next l (xs ++ n ∷ ys)
    → length xs < fuel
    → (slist_remove fuel l n next ≡ some (remove_out next l n xs))
      × IsSlist (remove_out next l n xs) l (xs ++ ys)
unfolding slist_remove
slist_remove-IsSlist next fuel l n xs ys s f =
    let d = Distinct-delete n (l ∷ xs) ys s.distinct in
    let found = find_before_lem next fuel l n xs ys f (Avoids-split n xs ys d.1.1).0 s.chain in
    (
      rw found.0 (rw found.1 refl),
      record { chain = removed next l n xs ys s.distinct s.chain; distinct = d.0 },
    )
