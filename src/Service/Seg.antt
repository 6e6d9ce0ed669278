-- ===== src/Service/Seg.antt =====
-- Chains of `next` pointers between two nodes, and what each operation of include/rtservice.h does
-- to them.
use rtthread_nano_to_riscv.Prelude.{◌≡◌, ◌≢◌, List, [], ◌∷◌, ◌++◌, arith, Avoids}
use rtthread_nano_to_riscv.Service.Node.{Node}
use rtthread_nano_to_riscv.Service.Links.{Links, insert_before, insert_after, list_remove}
use rtthread_nano_to_riscv.Service.Pointers.{
  IsLinked, IsAlone, next-insert_before, next-insert_after, next-list_remove,
}

-- From `a` the `next` pointers lead through `xs` to `b`.
abbrev pub Seg : (Node → Node) → Node → List Node → Node → Type 0
Seg f a [] b = f a ≡ b
Seg f a (x ∷ xs) b = (f a ≡ x) × Seg f x xs b

module _ (f : Node → Node) where
  pub Seg-append :
      (a : Node) (xs : List Node) (y : Node) (ys : List Node) (b : Node)
      → Seg f a xs y
      → Seg f y ys b
      → Seg f a (xs ++ y ∷ ys) b
  Seg-append a [] y ys b p q = (p, q)
  Seg-append a (x ∷ xs) y ys b p q = (p.0, Seg-append x xs y ys b p.1 q)

  pub Seg-split :
      (a : Node) (xs : List Node) (y : Node) (ys : List Node) (b : Node)
      → Seg f a (xs ++ y ∷ ys) b
      → Seg f a xs y × Seg f y ys b
  Seg-split a [] y ys b p = (p.0, p.1)
  Seg-split a (x ∷ xs) y ys b p = let r = Seg-split x xs y ys b p.1 in ((p.0, r.0), r.1)

  -- A node whose `next` is itself leads nowhere else.
  pub Seg-stuck : (n : Node) (xs : List Node) (b : Node) → f n ≡ n → n ≢ b → Seg f n xs b → ⊥
  Seg-stuck n [] b e ne p = ne (ground (arith, e, p))
  Seg-stuck n (x ∷ xs) b e ne p = Seg-stuck n xs b e ne (ground (arith, p.0, p.1, e))

  pub Seg-Avoids :
      (a n : Node) (xs : List Node) (b : Node) → f n ≡ n → n ≢ b → Seg f a xs b → Avoids n xs
  Seg-Avoids a n [] b e ne p = tt
  Seg-Avoids a n (x ∷ xs) b e ne p = (
    (λ (q : x ≡ n). Seg-stuck n xs b e ne (ground (arith, q, p.1))),
    Seg-Avoids x n xs b e ne p.1,
  )

-- A segment after each operation.
module _ (s : Links) (l n : Node) (w : IsLinked s) (al : IsAlone s n) (ne : l ≢ n) where
  abbrev pub before : Links
  before = insert_before l n s

  -- nothing in the segment leads to `l`
  pub Seg-before_frame :
      (a : Node) (xs : List Node) (b : Node)
      → a ≢ n
      → Avoids n xs
      → Avoids l xs
      → b ≢ l
      → Seg s.next a xs b
      → Seg before.next a xs b
  Seg-before_frame a [] b an o q bl p = ground (arith, next-insert_before s l n a w al ne)
  Seg-before_frame a (x ∷ xs) b an o q bl p = (
    ground (arith, next-insert_before s l n a w al ne, p.0, q.0),
    Seg-before_frame x xs b o.0 o.1 q.1 bl p.1,
  )

  -- the segment ends at `l`
  pub Seg-before :
      (a : Node) (xs : List Node)
      → a ≢ n
      → Avoids n xs
      → Avoids l xs
      → Seg s.next a xs l
      → Seg before.next a (xs ++ n ∷ []) l
  Seg-before a [] an o q p = (
    ground (arith, next-insert_before s l n a w al ne),
    ground (arith, next-insert_before s l n n w al ne),
  )
  Seg-before a (x ∷ xs) an o q p = (
    ground (arith, next-insert_before s l n a w al ne, p.0, q.0),
    Seg-before x xs o.0 o.1 q.1 p.1,
  )

  pub Seg-after_frame :
      (a : Node) (xs : List Node) (b : Node)
      → a ≢ n
      → a ≢ l
      → Avoids n xs
      → Avoids l xs
      → Seg s.next a xs b
      → Seg (insert_after l n s).next a xs b
  Seg-after_frame a [] b an alne o q p = ground (arith, next-insert_after s l n a w al ne)
  Seg-after_frame a (x ∷ xs) b an alne o q p = (
    ground (arith, next-insert_after s l n a w al ne, p.0),
    Seg-after_frame x xs b o.0 q.0 o.1 q.1 p.1,
  )

module _ (s : Links) (n : Node) (w : IsLinked s) where
  pub Seg-remove_frame :
      (a : Node) (xs : List Node) (b : Node)
      → a ≢ n
      → Avoids n xs
      → b ≢ n
      → Seg s.next a xs b
      → Seg (list_remove n s).next a xs b
  Seg-remove_frame a [] b an o bn p = ground (arith, next-list_remove s n a w)
  Seg-remove_frame a (x ∷ xs) b an o bn p =
      (ground (arith, next-list_remove s n a w, p.0, o.0), Seg-remove_frame x xs b o.0 o.1 bn p.1)

  pub Seg-remove :
      (a : Node) (xs ys : List Node) (b : Node)
      → a ≢ n
      → Avoids n (xs ++ ys)
      → b ≢ n
      → Seg s.next a xs n
      → Seg s.next n ys b
      → Seg (list_remove n s).next a (xs ++ ys) b
  Seg-remove a [] [] b an o bn p q = ground (arith, next-list_remove s n a w, p, q)
  Seg-remove a [] (y ∷ ys) b an o bn p q =
      (ground (arith, next-list_remove s n a w, p, q.0), Seg-remove_frame y ys b o.0 o.1 bn q.1)
  Seg-remove a (x ∷ xs) ys b an o bn p q =
      (ground (arith, next-list_remove s n a w, p.0, o.0), Seg-remove x xs ys b o.0 o.1 bn p.1 q)
