-- ===== src/Mem/Freed.antt =====
-- The list of blocks that `rt_free` of src/mem.c leaves.
use rtthread_nano_to_riscv.Prelude.{
  ℕ, ◌≡◌, refl, sym, subst, Bool, true, false, if◌then◌else◌, Bool-cases, inl, inr, List, [], ◌∷◌,
  ◌++◌, arith,
}
use rtthread_nano_to_riscv.Mem.Chain.{Block, first_free, has_free, Apart, Apart-append, last_used}
use rtthread_nano_to_riscv.Mem.Plug.{absorb, drop_free}

-- the block, free
abbrev pub freed : Block → Block
freed b = record { used = false; next = b.next }

pub absorb-free :
    (x : Block) (back : List Block)
    → x.used ≡ false
    → (y : Block) × (rest : List Block) × (absorb x back ≡ y ∷ rest) × (y.used ≡ false)
absorb-free x [] f = (x, [], refl, f)
absorb-free x (c ∷ cs) f = elim (Bool-cases c.used) [
  | inl e ↦ (x, c ∷ cs, pick c.used e, f)
  | inr e ↦ (c, cs, skip c.used e, e)
]
  where
    pick : (u : Bool) → u ≡ true → (if u then x ∷ c ∷ cs else c ∷ cs) ≡ x ∷ c ∷ cs
    pick u e = ground arith

    skip : (u : Bool) → u ≡ false → (if u then x ∷ c ∷ cs else c ∷ cs) ≡ c ∷ cs
    skip u e = ground arith

absorb-Apart :
    (x : Block) (back : List Block) → x.used ≡ false → Apart true back → Apart true (absorb x back)
absorb-Apart x [] f a = (refl, tt)
absorb-Apart x (c ∷ cs) f a = go c.used refl
  where
    go : (u : Bool) → c.used ≡ u → Apart true (if u then x ∷ c ∷ cs else c ∷ cs)
    go true e = (refl, ((rw f e), a.1))
    go false e = (refl, a.1)

drop_free-Apart :
    (u : Bool) (d : Block) (ds : List Block)
    → Apart u (d ∷ ds)
    → Apart u (drop_free (d ∷ ds)) × (last_used u (drop_free (d ∷ ds)) ≡ true)
drop_free-Apart u d [] a = go d.used refl
  where
    go :
        (v : Bool)
        → d.used ≡ v
        → Apart u (if v then d ∷ [] else []) × (last_used u (if v then d ∷ [] else []) ≡ true)
    go true e = ((a.0, tt), e)
    go false e = (tt, ground (arith, a.0))
drop_free-Apart u d (e ∷ ds) a = let r = drop_free-Apart d.used e ds a.1 in ((a.0, r.0), r.1)

pub freed-Apart :
    (front : List Block) (x : Block) (back : List Block) (v : Bool)
    → x.used ≡ false
    → v ≡ true
    → Apart true front
    → Apart v back
    → Apart true (drop_free front ++ absorb x back)
freed-Apart [] x back v f e a c = absorb-Apart x back f (subst (λ (w : Bool). Apart w back) e c)
freed-Apart (d ∷ ds) x back v f e a c =
    let r = drop_free-Apart true d ds a in
    Apart-append true (drop_free (d ∷ ds)) (absorb x back) r.0 (
      subst (λ (w : Bool). Apart w (absorb x back)) (sym r.1)
        (absorb-Apart x back f (subst (λ (w : Bool). Apart w back) e c)))

pub drop_free-none : (front : List Block) → has_free front ≡ false → drop_free front ≡ front
drop_free-none [] e = refl
drop_free-none (d ∷ []) e = ground arith
drop_free-none (d ∷ c ∷ ds) e = ground (arith, drop_free-none (c ∷ ds))

pub drop_free-first :
    (at : ℕ) (front : List Block) (y : Block) (rest : List Block)
    → y.used ≡ false
    → has_free front ≡ true
    → first_free at (drop_free front ++ y ∷ rest) ≡ first_free at front
drop_free-first at [] y rest f e = cc
drop_free-first at (d ∷ []) y rest f e = ground arith
drop_free-first at (d ∷ c ∷ ds) y rest f e = ground (arith, drop_free-first d.next (c ∷ ds) y rest)
