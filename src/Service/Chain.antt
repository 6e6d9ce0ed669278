-- ===== src/Service/Chain.antt =====
-- Chains of single links that end in RT_NULL, as include/rtservice.h and src/ipc.c have them, with a
-- node as its address.
use rtthread_nano_to_riscv.Prelude.{
  ℕ, ◌≡◌, ◌≢◌, refl, sym, ap, ◌∙◌, subst, ite, ℕ_discrete, if_pos, if_neg, Option, none, some, List,
  [], ◌∷◌, ◌++◌, Avoids, Distinct,
}

-- From the pointer `p` the links lead through the nodes to RT_NULL.
abbrev pub Chain : (ℕ → Option ℕ) → Option ℕ → List ℕ → Type 0
Chain next p [] = p ≡ none
Chain next p (b ∷ bs) = (p ≡ some b) × Chain next (next b) bs

abbrev pub last_or : ℕ → List ℕ → ℕ
last_or x [] = x
last_or x (y ∷ ys) = last_or y ys

abbrev pub last_of : List ℕ → Option ℕ
last_of [] = none
last_of (x ∷ xs) = some (last_or x xs)

-- A write to another node's link leaves the chain.
pub Chain-frame :
    (next : ℕ → Option ℕ) (at : ℕ) (v p : Option ℕ) (bs : List ℕ)
    → Avoids at bs
    → Chain next p bs
    → Chain (λ a. ite (ℕ_discrete a at) v (next a)) p bs
Chain-frame next at v p [] o c = c
Chain-frame next at v p (b ∷ bs) o c = (
  c.0,
  subst (λ r. Chain (λ a. ite (ℕ_discrete a at) v (next a)) r bs)
      (sym (if_neg (ℕ_discrete b at) o.0 v (next b))) (Chain-frame next at v (next b) bs o.1 c.1),
)

pub last_or-ne : (a x : ℕ) (xs : List ℕ) → Avoids a (x ∷ xs) → a ≢ last_or x xs
last_or-ne a x [] o = λ e. o.0 (sym e)
last_or-ne a x (y ∷ ys) o = last_or-ne a y ys o.1

pub last_or-Avoids : (x : ℕ) (xs ys : List ℕ) → Distinct (x ∷ (xs ++ ys)) → Avoids (last_or x xs) ys
last_or-Avoids x [] ys d = d.0
last_or-Avoids x (y ∷ xs) ys d = last_or-Avoids y xs ys d.1

-- A node linked behind the last one ends the chain.
pub Chain-append :
    (next : ℕ → Option ℕ) (m : ℕ) (p : Option ℕ) (x : ℕ) (xs : List ℕ)
    → next m ≡ none
    → Distinct (x ∷ xs)
    → Avoids m (x ∷ xs)
    → Chain next p (x ∷ xs)
    → Chain (λ a. ite (ℕ_discrete a (last_or x xs)) (some m) (next a)) p (x ∷ (xs ++ m ∷ []))
Chain-append next m p x [] e d o c = (
  c.0,
  (
    if_pos (ℕ_discrete x x) refl (some m) (next x),
    if_neg (ℕ_discrete m x) (λ q. o.0 (sym q)) (some m) (next m) ∙ e,
  ),
)
Chain-append next m p x (y ∷ ys) e d o c = (
  c.0,
  subst
      (λ r. Chain (λ a. ite (ℕ_discrete a (last_or y ys)) (some m) (next a)) r (y ∷ (ys ++ m ∷ [])))
      (sym (if_neg (ℕ_discrete x (last_or y ys)) (last_or-ne x y ys d.0) (some m) (next x)))
      (Chain-append next m (next x) y ys e d.1 o.1 c.1),
)

pub last_of-append : (xs : List ℕ) (m : ℕ) → last_of (xs ++ m ∷ []) ≡ some m
last_of-append [] m = refl
last_of-append (x ∷ xs) m = ap some (last_or-append x xs m)
  where
    last_or-append : (x : ℕ) (xs : List ℕ) (m : ℕ) → last_or x (xs ++ m ∷ []) ≡ m
    last_or-append x [] m = refl
    last_or-append x (y ∷ ys) m = last_or-append y ys m
