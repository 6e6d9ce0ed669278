-- ===== src/Mem/Plug.antt =====
-- `plug_holes` of src/mem.c on a heap whose `lfree` is in front of what is joined.
use rtthread_nano_to_riscv.Prelude.{
  ℕ, ◌<◌, ◌≤◌, ◌≡◌, refl, sym, ◌∙◌, ap, not, ◌==◌, if◌then◌else◌, Bool, true, false, Bool-cases,
  inl, inr, ◌⊎◌, subst, append_assoc, List, [], ◌∷◌, ◌++◌, arith,
}
use rtthread_nano_to_riscv.Mem.{Header, Heap, plug_forward, plug_backward, heap_end}
use rtthread_nano_to_riscv.Mem.Chain.{Block, flag, Chain, Chain-le, Chain-split, end_of}
use rtthread_nano_to_riscv.Mem.Merge.{joined, joined-Chain}

module _ (h : Heap) (at n : ℕ) (next : (h.header at).next ≡ n) (apart : (at == n) ≡ false) where
  forward-joins :
      ((h.header n).used == 0) ≡ true
      → (n == heap_end h) ≡ false
      → (h.lfree == n) ≡ false
      → plug_forward at h ≡ joined at (h.header n).next h
  unfolding plug_forward
  forward-joins u e l = rw next (rw (apart, u, e, l) refl)

  forward-used : ((h.header n).used == 0) ≡ false → plug_forward at h ≡ h
  unfolding plug_forward
  forward-used u = rw next (rw (apart, u) refl)

module _ (h : Heap) (at p : ℕ) (prev : (h.header at).prev ≡ p) where
  backward-joins :
      (p == at) ≡ false
      → ((h.header p).used == 0) ≡ true
      → (h.lfree == at) ≡ false
      → plug_backward at h ≡ joined p (h.header at).next h
  unfolding plug_backward
  backward-joins e u l = rw prev (rw (e, u, l) refl)

  backward-first : (p == at) ≡ true → plug_backward at h ≡ h
  unfolding plug_backward
  backward-first e = rw prev (rw e refl)

  backward-used : (p == at) ≡ false → ((h.header p).used == 0) ≡ false → plug_backward at h ≡ h
  unfolding plug_backward
  backward-used e u = rw prev (rw (e, u) refl)

-- What a join leaves: the state of every block, and where the heap and its lowest free block are.
pub record Keeps (h h' : Heap) : Type 0 where
  pub used : (o : ℕ) → (h'.header o).used ≡ (h.header o).used
  pub lfree : h'.lfree ≡ h.lfree
  pub size : h'.size ≡ h.size
  pub base : h'.base ≡ h.base
  pub lock : h'.lock ≡ h.lock

joined-Keeps : (h : Heap) (at m : ℕ) → Keeps h (joined at m h)
joined-Keeps h at m = record {
  used = λ o. refl;
  lfree = refl;
  size = refl;
  base = refl;
  lock = refl;
}

-- a free block with what is behind it
abbrev pub absorb : Block → List Block → List Block
absorb x [] = x ∷ []
absorb x (c ∷ cs) = if c.used then x ∷ c ∷ cs else c ∷ cs

-- and what is left in front of it
abbrev pub drop_free : List Block → List Block
drop_free [] = []
drop_free (d ∷ []) = if d.used then d ∷ [] else []
drop_free (d ∷ e ∷ ds) = d ∷ drop_free (e ∷ ds)

-- what a step of `plug_holes` makes of the heap
abbrev pub Plugs : Heap → Heap → List Block → Type 0
Plugs h h' bs = Chain h'.header 0 0 bs (heap_end h) × Keeps h h'

Keeps-refl : (h : Heap) → Keeps h h
Keeps-refl h = record { used = λ o. refl; lfree = refl; size = refl; base = refl; lock = refl }

if_true : (b : Bool) (x y : List Block) → b ≡ true → (if b then x else y) ≡ x
if_true b x y e = ground arith

if_false : (b : Bool) (x y : List Block) → b ≡ false → (if b then x else y) ≡ y
if_false b x y e = ground arith

eq_test : (a b : ℕ) → a < b → (a == b) ≡ false
eq_test a b l = ground arith

flag_test : (u : Bool) (n : ℕ) → n ≡ flag u → (n == 0) ≡ not u
flag_test true n e = rw e refl
flag_test false n e = rw e refl

pub plug_forward-Plugs :
    (h : Heap) (front : List Block) (x : Block) (back : List Block)
    → x.used ≡ false
    → Chain h.header 0 0 (front ++ x ∷ back) (heap_end h)
    → (h.header (heap_end h)).used ≡ 1
    → h.lfree ≤ end_of 0 front
    → Plugs h (plug_forward (end_of 0 front) h) (front ++ absorb x back)
plug_forward-Plugs h front x [] fx c u l =
    let s = Chain-split h.header 0 0 front (x ∷ []) (heap_end h) c in
    let same =
      forward-used h (end_of 0 front) x.next (ap (λ (v : Header). v.next) s.1.0)
        (eq_test (end_of 0 front) x.next (omega (arith, s.1.1)))
        (flag_test true (h.header x.next).used (rw s.1.3 u)) in
    rw same (c, Keeps-refl h)
plug_forward-Plugs h front x (d ∷ ds) fx c u l =
    let s = Chain-split h.header 0 0 front (x ∷ d ∷ ds) (heap_end h) c in
    let next = ap (λ (v : Header). v.next) s.1.0 in
    let apart = eq_test (end_of 0 front) x.next (omega (arith, s.1.1)) in
    let state = flag_test d.used (h.header x.next).used (ap (λ (v : Header). v.used) s.1.3.0) in
    elim (Bool-cases d.used) [
      | inl e ↦
          let same = forward-used h (end_of 0 front) x.next next apart (state ∙ ap not e) in
          rw same (rw (if_true d.used (x ∷ d ∷ ds) (d ∷ ds) e) (c, Keeps-refl h))
      | inr e ↦
          let far = Chain-le h.header x.next d.next ds (heap_end h) s.1.3.3 in
          let join =
            forward-joins h (end_of 0 front) x.next next apart (state ∙ ap not e)
              (eq_test x.next (heap_end h) (omega (arith, s.1.3.1, far)))
              (eq_test h.lfree x.next (omega (arith, s.1.1)))
            ∙ ap (λ (m : ℕ). joined (end_of 0 front) m h) (ap (λ (v : Header). v.next) s.1.3.0) in
          rw join (
            rw (if_false d.used (x ∷ d ∷ ds) (d ∷ ds) e) (
              joined-Chain h front x d ds (heap_end h) fx e c,
              joined-Keeps h (end_of 0 front) d.next,
            ))
    ]

drop_free-snoc :
    (ds : List Block) (d : Block) → drop_free (ds ++ d ∷ []) ≡ (if d.used then ds ++ d ∷ [] else ds)
drop_free-snoc [] d = refl
drop_free-snoc (c ∷ []) d = ground arith
drop_free-snoc (c ∷ e ∷ ds) d = ground (arith, drop_free-snoc (e ∷ ds) d)

end_of-snoc : (at : ℕ) (ds : List Block) (d : Block) → end_of at (ds ++ d ∷ []) ≡ d.next
end_of-snoc at [] d = refl
end_of-snoc at (c ∷ ds) d = end_of-snoc c.next ds d

Snoc-cases : (xs : List Block) → (xs ≡ []) ⊎ ((ds : List Block) × (d : Block) × (xs ≡ ds ++ d ∷ []))
Snoc-cases [] = inl refl
Snoc-cases (x ∷ xs) = elim (Snoc-cases xs) [
  | inl e ↦ inr ([], x, rw e refl)
  | inr s ↦ inr (x ∷ s.0, s.1, ap (λ (l : List Block). x ∷ l) s.2)
]

module _ (h : Heap) (x : Block) (back : List Block) (fx : x.used ≡ false) where
  backward-snoc :
      (ds : List Block) (d : Block)
      → Chain h.header 0 0 (ds ++ d ∷ x ∷ back) (heap_end h)
      → (d.used ≡ false → h.lfree < d.next)
      → Plugs h (plug_backward d.next h) (drop_free (ds ++ d ∷ []) ++ x ∷ back)
  backward-snoc ds d c l =
      let s = Chain-split h.header 0 0 ds (d ∷ x ∷ back) (heap_end h) c in
      let prev = ap (λ (v : Header). v.prev) s.1.3.0 in
      let apart = eq_test (end_of 0 ds) d.next (omega (arith, s.1.1)) in
      let state =
        flag_test d.used (h.header (end_of 0 ds)).used (ap (λ (v : Header). v.used) s.1.0) in
      rw drop_free-snoc (elim (Bool-cases d.used) [
        | inl e ↦
            let same = backward-used h d.next (end_of 0 ds) prev apart (state ∙ ap not e) in
            rw (if_true d.used (ds ++ d ∷ []) ds e, append_assoc) (rw same (c, Keeps-refl h))
        | inr e ↦
            let join =
              backward-joins h d.next (end_of 0 ds) prev apart (state ∙ ap not e)
                (eq_test h.lfree d.next (l e))
              ∙ ap (λ (m : ℕ). joined (end_of 0 ds) m h) (ap (λ (v : Header). v.next) s.1.3.0) in
            rw (if_false d.used (ds ++ d ∷ []) ds e) (
              rw join (
                joined-Chain h ds d x back (heap_end h) e fx c,
                joined-Keeps h (end_of 0 ds) x.next,
              ))
      ])

  pub plug_backward-Plugs :
      (front : List Block)
      → Chain h.header 0 0 (front ++ x ∷ back) (heap_end h)
      → ((ds : List Block) (d : Block)
          → front ≡ ds ++ d ∷ []
          → d.used ≡ false
          → h.lfree < end_of 0 front)
      → Plugs h (plug_backward (end_of 0 front) h) (drop_free front ++ x ∷ back)
  plug_backward-Plugs front c l = elim (Snoc-cases front) [
    | inl e ↦
        let c0 = subst (λ (l : List Block). Chain h.header 0 0 (l ++ x ∷ back) (heap_end h)) e c in
        let same = backward-first h 0 0 (ap (λ (v : Header). v.prev) c0.0) refl in
        rw e (subst (λ (h' : Heap). Plugs h h' (x ∷ back)) (sym same) (c0, Keeps-refl h))
    | inr s ↦
        let c0 =
          subst (λ (l : List Block). Chain h.header 0 0 (l ++ x ∷ back) (heap_end h)) s.2 c in
        rw (s.2, end_of-snoc)
          (backward-snoc s.0 s.1 (rw append_assoc at c0)
            (λ f. rw (sym (end_of-snoc 0 s.0 s.1)) (rw (sym s.2) (l s.0 s.1 s.2 f))))
  ]
