-- ===== src/Mem/Merge.antt =====
-- How `plug_holes` of src/mem.c joins two free blocks that touch.
use rtthread_nano_to_riscv.Prelude.{ℕ, ◌≡◌, ◌≢◌, refl, ◌∙◌, false, List, ◌∷◌, ◌++◌, arith}
use rtthread_nano_to_riscv.Mem.{Heap, set_next, set_prev}
use rtthread_nano_to_riscv.Mem.Chain.{
  Block, Chain, Chain-split, Chain-append, Chain-frame, Chain-prev, end_of,
}

-- The writes of a join: the block at `at` takes over the next one, which ends at `m`.
abbrev pub joined : ℕ → ℕ → Heap → Heap
joined at m h = set_prev m at (set_next at m h)

module _ (h : Heap) (at m : ℕ) (ne : at ≢ m) where
  joined-at : (joined at m h).header at ≡ record (h.header at) { next = m }
  joined-at = ground arith

  joined-behind : (joined at m h).header m ≡ record (h.header m) { prev = at }
  joined-behind = ground arith

  joined-else : (o : ℕ) → o ≢ at → o ≢ m → (joined at m h).header o ≡ h.header o
  joined-else o na nm = ground arith

-- The chain without the boundary of two free blocks.
pub joined-Chain :
    (h : Heap) (pre : List Block) (x y : Block) (post : List Block) (stop : ℕ)
    → x.used ≡ false
    → y.used ≡ false
    → Chain h.header 0 0 (pre ++ x ∷ y ∷ post) stop
    → Chain (joined (end_of 0 pre) y.next h).header 0 0 (pre ++ y ∷ post) stop
joined-Chain h pre x y post stop fx fy c =
    let at = end_of 0 pre in
    let s = Chain-split h.header 0 0 pre (x ∷ y ∷ post) stop c in
    let ne : at ≢ y.next = λ (e : at ≡ y.next). omega (arith, s.1.1, s.1.3.1, e) in
    let f = (joined at y.next h).header in
    Chain-append f 0 0 pre (y ∷ post) stop
      (Chain-frame h.header f 0 0 pre at
        (λ o l u.
          joined-else h at y.next ne o (λ e. omega (arith, e, u))
            (λ e. omega (arith, e, u, s.1.1, s.1.3.1)))
        s.0)
      (
        joined-at h at y.next ne ∙ (rw s.1.0 (rw (fx, fy) refl)),
        omega (arith, s.1.1, s.1.3.1),
        s.1.3.2,
        Chain-prev h.header f x.next at y.next post stop
            (λ b e. joined-behind h at y.next ne ∙ (rw e refl))
            (λ o l u.
              joined-else h at y.next ne o (λ e. omega (arith, e, l, s.1.1, s.1.3.1))
                (λ e. omega (arith, e, l)))
            s.1.3.3,
      )
