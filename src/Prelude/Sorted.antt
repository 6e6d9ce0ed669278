-- ===== src/Prelude/Sorted.antt =====
-- Lists in the order of a key, and an insertion that keeps it.
use mathlib.Core.Path.{◌≡◌, refl, ap}
use mathlib.Core.Bool.{Bool, true, false}
use mathlib.Core.List.{List, [], ◌∷◌, ◌++◌}
use Prim.Native.Nat.{ℕ, suc, ◌≤◌}
use native.Mathlib.Omega.{arith}
use rtthread_nano_to_riscv.Prelude.Lists.{
  length, All, All-append, All-split, take_while, drop_while,
}
use rtthread_nano_to_riscv.Prelude.Tests.{leb, Bool-cases}
use mathlib.Core.Logic.{inl, inr}

module _ {A : Type 0} (key : A → ℕ) where
  abbrev pub IsSorted : List A → Type 0
  IsSorted [] = Unit
  IsSorted (x ∷ xs) = All (λ y. key x ≤ key y) xs × IsSorted xs

  All-lower : (m n : ℕ) (xs : List A) → m ≤ n → All (λ y. n ≤ key y) xs → All (λ y. m ≤ key y) xs
  All-lower m n [] h a = tt
  All-lower m n (x ∷ xs) h a = (omega arith, All-lower m n xs h a.1)

  pub IsSorted-delete :
      (xs : List A) (t : A) (ys : List A) → IsSorted (xs ++ t ∷ ys) → IsSorted (xs ++ ys)
  IsSorted-delete [] t ys s = s.1
  IsSorted-delete (x ∷ xs) t ys s =
      let a = All-split (λ y. key x ≤ key y) xs (t ∷ ys) s.0 in
      (All-append (λ y. key x ≤ key y) xs ys a.0 a.1.1, IsSorted-delete xs t ys s.1)

-- A predicate and an order go over to other keys that agree on the list.
module _ {A : Type 0} (key key' : A → ℕ) where
  pub All-congr :
      (P : ℕ → Type 0) (xs : List A)
      → All (λ x. key' x ≡ key x) xs
      → All (λ x. P (key x)) xs
      → All (λ x. P (key' x)) xs
  All-congr P [] e a = tt
  All-congr P (x ∷ xs) e a = (rw e.0 a.0, All-congr P xs e.1 a.1)

  pub IsSorted-congr :
      (xs : List A) → All (λ x. key' x ≡ key x) xs → IsSorted key xs → IsSorted key' xs
  IsSorted-congr [] e s = tt
  IsSorted-congr (x ∷ xs) e s =
      (rw e.0 (All-congr (λ n. key x ≤ n) xs e.1 s.0), IsSorted-congr xs e.1 s.1)

module _ {A : Type 0} (P : A → Type 0) (test : A → Bool) (t : A) (h : P t) where
  pub All-insert : (xs : List A) → All P xs → All P (take_while test xs ++ t ∷ drop_while test xs)
  All-insert [] a = (h, tt)
  All-insert (x ∷ xs) a = elim (Bool-cases (test x)) [
    | inl e ↦ rw e (a.0, All-insert xs a.1)
    | inr e ↦ rw e (h, a)
  ]

-- A value put behind those whose key is no greater leaves a sorted list sorted.
module _ {A : Type 0} (key : A → ℕ) (test : A → Bool) (t : A) where
  pub IsSorted-insert :
      (xs : List A)
      → All (λ x. test x ≡ leb (key x) (key t)) xs
      → IsSorted key xs
      → IsSorted key (take_while test xs ++ t ∷ drop_while test xs)
  IsSorted-insert [] a s = (tt, tt)
  IsSorted-insert (x ∷ xs) a s = elim (Bool-cases (test x)) [
    | inl e ↦ rw e (
      All-insert (λ y. key x ≤ key y) test t (ground (arith, a.0, e)) xs s.0,
      IsSorted-insert xs a.1 s.1,
    )
    | inr e ↦
        let lower : key t ≤ key x = ground (arith, a.0, e) in
        rw e ((lower, All-lower key (key t) (key x) xs lower s.0), s)
  ]

-- A value that fails the first test, put behind those that pass a wider one.
pub take_while-insert :
    {A : Type 0} (p q : A → Bool) (t : A) (xs : List A)
    → p t ≡ false
    → All (λ x. p x ≡ true → q x ≡ true) xs
    → take_while p (take_while q xs ++ t ∷ drop_while q xs) ≡ take_while p xs
take_while-insert p q t [] e a = rw e
take_while-insert p q t (x ∷ xs) e a = elim (Bool-cases (q x)) [
  | inl h ↦ rw h (elim (Bool-cases (p x)) [
    | inl g ↦ rw g (ap (λ ys. x ∷ ys) (take_while-insert p q t xs e a.1))
    | inr g ↦ rw g
  ])
  | inr h ↦ elim (Bool-cases (p x)) [
    | inl g ↦ absurd (clash (q x) (a.0 g) h)
    | inr g ↦ rw h (rw (e, g))
  ]
]
  where
    clash : (v : Bool) → v ≡ true → v ≡ false → ⊥
    clash v e f = ground arith

pub length-insert :
    {A : Type 0} (q : A → Bool) (t : A) (xs : List A)
    → length (take_while q xs ++ t ∷ drop_while q xs) ≡ suc (length xs)
length-insert q t [] = refl
length-insert q t (x ∷ xs) = elim (Bool-cases (q x)) [
  | inl e ↦ rw e (ap suc (length-insert q t xs))
  | inr e ↦ rw e
]
