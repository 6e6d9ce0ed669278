-- ===== src/Service/Ring.antt =====
-- What the pointers of include/rtservice.h stand for: a ring of nodes behind a head, read as the
-- list of its nodes, and each operation as the operation on that list.
use rtthread_nano_to_riscv.Prelude.{
  ℕ, zero, suc, ◌+◌, ◌<◌, ◌≡◌, ◌≢◌, true, false, some, List, [], ◌∷◌, ◌++◌, arith, ite, length,
  Avoids, Distinct, Avoids-split, Distinct-insert, Distinct-delete, append-nil, is_nil, sym,
  append_assoc,
}
use rtthread_nano_to_riscv.Service.Node.{Node, node_eq}
use rtthread_nano_to_riscv.Service.Links.{
  Links, insert_before, insert_after, list_remove, list_init, list_isempty, len_loop, list_len,
}
use rtthread_nano_to_riscv.Service.Pointers.{IsLinked, IsAlone, next-insert_after}
use rtthread_nano_to_riscv.Service.Seg.{
  Seg, Seg-append, Seg-split, Seg-Avoids, Seg-before, Seg-before_frame, Seg-after_frame, Seg-remove,
  Seg-remove_frame,
}

-- The list at the head `h` is `xs`.
abbrev pub Ring : Links → Node → List Node → Type 0
Ring s h xs = Seg s.next h xs h × Distinct (h ∷ xs)

-- a node off every list is not in this one
pub Ring-Avoids :
    (s : Links) (h n : Node) (xs : List Node) → IsAlone s n → h ≢ n → Ring s h xs → Avoids n xs
Ring-Avoids s h n xs al ne r = Seg-Avoids s.next h n xs h al.0 (λ e. ne (sym e)) r.0

module _ (s : Links) (h n : Node) (w : IsLinked s) (al : IsAlone s n) (ne : h ≢ n) where
  -- `rt_list_insert_before` at the head appends a node off every list, and keeps the rest in order.
  pub Ring-insert_before :
      (xs : List Node) → Ring s h xs → Ring (insert_before h n s) h (xs ++ n ∷ [])
  Ring-insert_before xs r =
      let o = Ring-Avoids s h n xs al ne r in
      (
        Seg-before s h n w al ne h xs ne o r.1.0 r.0,
        Distinct-insert n (h ∷ xs) [] (rw append-nil r.1) (rw append-nil (ne, o)),
      )

  inserted :
      (xs : List Node) → Avoids n xs → Ring s h xs → Seg (insert_after h n s).next h (n ∷ xs) h
  inserted [] o r = (
    ground (arith, next-insert_after s h n h w al ne),
    ground (arith, next-insert_after s h n n w al ne, r.0),
  )
  inserted (x ∷ xs) o r = (
    ground (arith, next-insert_after s h n h w al ne),
    (
      ground (arith, next-insert_after s h n n w al ne, r.0.0),
      Seg-after_frame s h n w al ne x xs h o.0 r.1.0.0 o.1 r.1.0.1 r.0.1,
    ),
  )

  -- `rt_list_insert_after` at the head puts the node first.
  pub Ring-insert_after : (xs : List Node) → Ring s h xs → Ring (insert_after h n s) h (n ∷ xs)
  Ring-insert_after xs r =
      let o = Ring-Avoids s h n xs al ne r in
      (inserted xs o r, (((λ e. ne (sym e)), r.1.0), (o, r.1.1)))

  -- `rt_list_insert_before` at a node `l` of the list puts the new node right in front of it.
  pub Ring-insert_before_node :
      (xs : List Node) (l : Node) (ys : List Node)
      → Ring s h (xs ++ l ∷ ys)
      → Ring (insert_before l n s) h (xs ++ n ∷ l ∷ ys)
  Ring-insert_before_node xs l ys r =
      let o = Ring-Avoids s h n (xs ++ l ∷ ys) al ne r in
      let on = Avoids-split n xs (l ∷ ys) o in
      let seg = Seg-split s.next h xs l ys h r.0 in
      let d = Distinct-delete l (h ∷ xs) ys r.1 in
      let ol = Avoids-split l xs ys d.1.1 in
      let first = Seg-before s l n w al on.1.0 h xs ne on.0 ol.0 seg.0 in
      let last = Seg-before_frame s l n w al on.1.0 l ys h on.1.0 on.1.1 ol.1 d.1.0 seg.1 in
      (
        rw append_assoc at
            (Seg-append (insert_before l n s).next h (xs ++ n ∷ []) l ys h first last),
        Distinct-insert n (h ∷ xs) (l ∷ ys) r.1 (ne, o),
      )

module _ (s : Links) (h n : Node) (w : IsLinked s) where
  -- `rt_list_remove` takes its node out of the list, and keeps the rest in order.
  pub Ring-list_remove :
      (xs ys : List Node) → Ring s h (xs ++ n ∷ ys) → Ring (list_remove n s) h (xs ++ ys)
  Ring-list_remove xs ys r =
      let seg = Seg-split s.next h xs n ys h r.0 in
      let d = Distinct-delete n (h ∷ xs) ys r.1 in
      (Seg-remove s n w h xs ys h d.1.0 d.1.1 d.1.0 seg.0 seg.1, d.0)

-- What an operation leaves alone: a list that has neither of the two nodes.
module _ (s : Links) (g : Node) (ys : List Node) (r : Ring s g ys) where
  pub Ring-insert_before_frame :
      (l n : Node)
      → IsLinked s
      → IsAlone s n
      → l ≢ n
      → g ≢ n
      → g ≢ l
      → Avoids l ys
      → Ring (insert_before l n s) g ys
  Ring-insert_before_frame l n w al ne gn gl o =
      (Seg-before_frame s l n w al ne g ys g gn (Ring-Avoids s g n ys al gn r) o gl r.0, r.1)

  pub Ring-insert_after_frame :
      (l n : Node)
      → IsLinked s
      → IsAlone s n
      → l ≢ n
      → g ≢ n
      → g ≢ l
      → Avoids l ys
      → Ring (insert_after l n s) g ys
  Ring-insert_after_frame l n w al ne gn gl o =
      (Seg-after_frame s l n w al ne g ys g gn gl (Ring-Avoids s g n ys al gn r) o r.0, r.1)

  pub Ring-list_remove_frame :
      (n : Node) → IsLinked s → g ≢ n → Avoids n ys → Ring (list_remove n s) g ys
  Ring-list_remove_frame n w gn o = (Seg-remove_frame s n w g ys g gn o gn r.0, r.1)

  -- `rt_list_isempty` says whether the list is empty.
  pub list_isempty_lem : list_isempty g s ≡ is_nil ys
  unfolding list_isempty
  list_isempty_lem = empty ys r
    where
      empty : (ys : List Node) → Ring s g ys → ite (node_eq (s.next g) g) true false ≡ is_nil ys
      empty [] r = ground (arith, r.0)
      empty (y ∷ ys) r = ground (arith, r.0.0, r.1.0.0)

-- The loop of `rt_list_len` counts the nodes that are left.
len_loop_lem :
    (s : Links) (h a : Node) (xs : List Node) (fuel len : ℕ)
    → length xs < fuel
    → Avoids h xs
    → Seg s.next a xs h
    → len_loop fuel h a len s ≡ some (len + length xs)
unfolding len_loop
len_loop_lem s h a xs zero len f o p = absurd (omega arith)
len_loop_lem s h a [] (suc fuel) len f o p = ground arith
len_loop_lem s h a (x ∷ xs) (suc fuel) len f o p =
    ground (arith, o.0, p.0, len_loop_lem s h x xs fuel (len + 1) (omega arith) o.1 p.1)

-- With more fuel than nodes `rt_list_len` ends, with the length of the list.
pub list_len_lem :
    (s : Links) (h : Node) (xs : List Node) (fuel : ℕ)
    → length xs < fuel
    → Ring s h xs
    → list_len fuel h s ≡ some (length xs)
unfolding list_len
list_len_lem s h xs fuel f r = ground (arith, len_loop_lem s h h xs fuel 0 f r.1.0 r.0)

-- An initialised head holds the empty list.
pub Ring-list_init : (s : Links) (h : Node) → Ring (list_init h s) h []
unfolding list_init
Ring-list_init s h = (ground arith, (tt, tt))
