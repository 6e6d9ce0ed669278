-- ===== src/Prelude/Lists.antt =====
-- Lists measured by native numbers, and the predicates on lists that the components share.
use Prim.Native.Nat.{ℕ, zero, suc, ◌+◌}
use mathlib.Core.Path.{◌≡◌, refl, sym}
use mathlib.Core.Logic.{◌≢◌}
use mathlib.Core.Bool.{Bool, true, false, cond}
use mathlib.Core.List.{List, [], ◌∷◌, ◌++◌}
use native.Mathlib.Omega.{arith}

module _ {ℓ} {A : Type ℓ} where
  abbrev pub length : List A → ℕ
  length [] = 0
  length (x ∷ xs) = suc (length xs)

  abbrev pub is_nil : List A → Bool
  is_nil [] = true
  is_nil (x ∷ xs) = false

  abbrev pub get_or : List A → ℕ → A → A
  get_or [] i d = d
  get_or (x ∷ xs) zero d = x
  get_or (x ∷ xs) (suc i) d = get_or xs i d

  pub length-append : (xs ys : List A) → length (xs ++ ys) ≡ length xs + length ys
  length-append [] ys = omega arith
  length-append (x ∷ xs) ys = omega (arith, length-append xs ys)

  abbrev pub All {κ} : (A → Type κ) → List A → Type κ
  All P [] = Unit
  All P (x ∷ xs) = P x × All P xs

  pub All-append {κ} : (P : A → Type κ) (xs ys : List A) → All P xs → All P ys → All P (xs ++ ys)
  All-append P [] ys h k = k
  All-append P (x ∷ xs) ys h k = (h.0, All-append P xs ys h.1 k)

  pub All-split {κ} : (P : A → Type κ) (xs ys : List A) → All P (xs ++ ys) → All P xs × All P ys
  All-split P [] ys h = (tt, h)
  All-split P (x ∷ xs) ys h = let r = All-split P xs ys h.1 in ((h.0, r.0), r.1)

  -- the longest front part that passes the test, and what is left
  abbrev pub take_while : (A → Bool) → List A → List A
  take_while p [] = []
  take_while p (x ∷ xs) = cond (p x) (x ∷ take_while p xs) []

  abbrev pub drop_while : (A → Bool) → List A → List A
  drop_while p [] = []
  drop_while p (x ∷ xs) = cond (p x) (drop_while p xs) (x ∷ xs)

  pub take_while-append-drop_while :
      (p : A → Bool) (xs : List A) → take_while p xs ++ drop_while p xs ≡ xs
  take_while-append-drop_while p [] = refl
  take_while-append-drop_while p (x ∷ xs) = ground (arith, take_while-append-drop_while p xs)

  -- Two tests that agree on a list split it at one place.
  pub take_while-congr :
      (p q : A → Bool) (xs : List A)
      → All (λ x. p x ≡ q x) xs
      → (take_while p xs ≡ take_while q xs) × (drop_while p xs ≡ drop_while q xs)
  take_while-congr p q [] e = (refl, refl)
  take_while-congr p q (x ∷ xs) e = ground (arith, e.0, take_while-congr p q xs e.1)

  -- `x` is not among `xs`; no element of `xs` stands twice.
  abbrev pub Avoids : A → List A → Type ℓ
  Avoids a xs = All (λ x. x ≢ a) xs

  abbrev pub Distinct : List A → Type ℓ
  Distinct [] = Unit
  Distinct (x ∷ xs) = Avoids x xs × Distinct xs

  pub Avoids-append : (a : A) (xs ys : List A) → Avoids a xs → Avoids a ys → Avoids a (xs ++ ys)
  Avoids-append a [] ys h k = k
  Avoids-append a (x ∷ xs) ys h k = (h.0, Avoids-append a xs ys h.1 k)

  pub Avoids-split : (a : A) (xs ys : List A) → Avoids a (xs ++ ys) → Avoids a xs × Avoids a ys
  Avoids-split a [] ys h = (tt, h)
  Avoids-split a (x ∷ xs) ys h = let r = Avoids-split a xs ys h.1 in ((h.0, r.0), r.1)

  -- Putting `n` between two parts of a list, and taking it out.
  pub Distinct-insert :
      (n : A) (xs ys : List A) → Distinct (xs ++ ys) → Avoids n (xs ++ ys) → Distinct (xs ++ n ∷ ys)
  Distinct-insert n [] ys d o = (o, d)
  Distinct-insert n (x ∷ xs) ys d o =
      let r = Avoids-split x xs ys d.0 in
      (Avoids-append x xs (n ∷ ys) r.0 ((λ e. o.0 (sym e)), r.1), Distinct-insert n xs ys d.1 o.1)

  pub Distinct-delete :
      (n : A) (xs ys : List A) → Distinct (xs ++ n ∷ ys) → Distinct (xs ++ ys) × Avoids n (xs ++ ys)
  Distinct-delete n [] ys d = (d.1, d.0)
  Distinct-delete n (x ∷ xs) ys d =
      let r = Distinct-delete n xs ys d.1 in
      let s = Avoids-split x xs (n ∷ ys) d.0 in
      ((Avoids-append x xs ys s.0 s.1.1, r.0), ((λ e. s.1.0 (sym e)), r.1))

  pub Distinct-Avoids :
      (xs : List A) (t y : A) (ys : List A) → Distinct (xs ++ t ∷ y ∷ ys) → Avoids y xs
  Distinct-Avoids [] t y ys d = tt
  Distinct-Avoids (x ∷ xs) t y ys d =
      let s = Avoids-split x xs (t ∷ y ∷ ys) d.0 in
      ((λ e. s.1.1.0 (sym e)), Distinct-Avoids xs t y ys d.1)
