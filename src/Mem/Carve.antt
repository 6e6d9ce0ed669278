-- ===== src/Mem/Carve.antt =====
-- How `rt_malloc` of src/mem.c takes the block that it found: the headers afterwards.
use rtthread_nano_to_riscv.Prelude.{
  ℕ, ◌+◌, ◌-◌, ◌%◌, ◌^◌, ◌<◌, ◌≤◌, ◌≡◌, ◌≢◌, refl, sym, ◌∙◌, true, false, leb, ◌==◌, if◌then◌else◌,
  Bool-cases, inl, inr, List, [], ◌∷◌, ◌++◌, arith, ◌⊎◌, ==_iff, ap, if_neg, ℕ_discrete,
}
use rtthread_nano_to_riscv.Mem.{
  Header, Heap, heap_magic, use_block, split_block, link_rest, heap_end, header_size, sub32, add32,
  count_up, set_magic, set_used,
}
use rtthread_nano_to_riscv.Mem.Link.{
  link_rest-block, link_rest-rest, link_rest-behind, link_rest-last, link_rest-else,
  link_rest-frame, magic_again, used_only,
}
use rtthread_nano_to_riscv.Mem.Chain.{Block, header_of, Chain, Chain-le, Chain-prev, Chain-frame}
use rtthread_nano_to_riscv.Mem.Find.{sub32_exact, add32_exact}

-- the used part and what is left of the block at `at`
abbrev pub carve : ℕ → ℕ → Block → List Block
carve size at b =
    if leb (size + 24) (b.next - (at + header_size))
    then record { used = true; next = at + header_size + size }
      ∷ record { used = false; next = b.next }
      ∷ []
    else record { used = true; next = b.next } ∷ []

-- What taking the block at `at` leaves: the blocks from there on, and all else as it was.
pub record IsCarved (h h' : Heap) (size prev at : ℕ) (b : Block) (back : List Block) : Type 0 where
  pub chain : Chain h'.header prev at (carve size at b ++ back) (heap_end h)
  pub front : (o : ℕ) → o < at → h'.header o ≡ h.header o
  pub end_used : (h'.header (heap_end h)).used ≡ 1
  pub same : (h'.lfree ≡ h.lfree) × (h'.size ≡ h.size) × (h'.base ≡ h.base) × (h'.lock ≡ h.lock)

module _ (h : Heap) (size prev at : ℕ) (b : Block) (e : h.header at ≡ header_of prev b)
    (far : at + header_size < b.next) (w : h.size + 24 < 2 ^ 32) (in_heap : b.next ≤ heap_end h)
    (s : size ≤ h.size) (least : 12 ≤ size) (fine : size % 4 ≡ 0) (at_fine : at % 4 ≡ 0)
    (b_fine : b.next % 4 ≡ 0) (back : List Block)
    (rest : Chain h.header at b.next back (heap_end h))
    (end_used : (h.header (heap_end h)).used ≡ 1) (room : size ≤ b.next - (at + header_size)) where
  test :
      leb (add32 (add32 size header_size) 12) (sub32 (h.header at).next (add32 at header_size))
      ≡ leb (size + 24) (b.next - (at + header_size))
  test = rw e (
      rw (add32_exact size header_size (omega arith)) (
        rw (add32_exact (size + header_size) 12 (omega arith)) (
          rw (add32_exact at header_size (omega arith)) (
            rw (sub32_exact b.next (at + header_size) (omega arith) (omega arith))
              (ground arith)))))

  place : add32 (add32 at header_size) size ≡ at + header_size + size
  place =
      rw (add32_exact at header_size (omega arith))
        (add32_exact (at + header_size) size (omega arith))

  abbrev p : ℕ
  p = at + header_size + size

  abbrev h1 : Heap
  h1 = link_rest at p b.next h

  module _ (big : leb (size + 24) (b.next - (at + header_size)) ≡ true) where
    gap : p + header_size ≤ b.next - 12
    gap = ground arith

    at_block : h1.header at ≡ header_of prev (record { used = true; next = p })
    at_block =
        link_rest-block h at p b.next (λ q. omega (arith, q)) (λ q. omega (arith, q)) ∙ (rw e refl)

    at_rest : h1.header p ≡ header_of at (record { used = false; next = b.next })
    at_rest = link_rest-rest h at p b.next (λ q. omega (arith, q)) (λ q. omega (arith, q, gap))

    behind :
        (back : List Block) (prev : ℕ)
        → Chain h.header at b.next back (heap_end h)
        → Chain h1.header p b.next back (heap_end h)
    behind [] prev c = c
    behind (d ∷ ds) prev c =
        let inside : b.next < heap_end h =
          omega (arith, c.1, Chain-le h.header b.next d.next ds (heap_end h) c.3) in
        let off_end : (b.next == add32 h.size header_size) ≡ false =
          rw (add32_exact h.size header_size (omega arith)) (ground arith) in
        Chain-prev h.header h1.header at p b.next (d ∷ ds) (heap_end h)
          (λ x k.
            link_rest-behind h at p b.next (λ q. omega (arith, q)) (λ q. omega (arith, q, gap))
              off_end
            ∙ (rw k refl))
          (λ o l u.
            link_rest-else h at p b.next o (λ q. omega (arith, q)) (λ q. omega (arith, q, gap))
              (λ q. omega (arith, q)))
          c

    else_same :
        (o : ℕ) → o ≢ at → o ≢ p → (o ≢ b.next) ⊎ (b.next ≡ heap_end h) → h1.header o ≡ h.header o
    else_same o na np (inl nn) = link_rest-else h at p b.next o na np nn
    else_same o na np (inr q) =
        link_rest-last h at p b.next o na np
          (rw (add32_exact h.size header_size (omega arith)) ((==_iff _ _).1 q))

    end_same : h1.header (heap_end h) ≡ h.header (heap_end h)
    end_same = elim (ℕ_discrete (heap_end h) b.next) [
      | yes q ↦
          else_same (heap_end h) (λ z. omega (arith, z)) (λ z. omega (arith, z, gap)) (inr (sym q))
      | no q ↦ else_same (heap_end h) (λ z. omega (arith, z)) (λ z. omega (arith, z, gap)) (inl q)
    ]

    taken : use_block at size h ≡ set_magic at heap_magic (count_up (add32 size header_size) h1)
    unfolding use_block split_block
    taken = rw (test, big) (rw place (rw (ap (λ (x : Header). x.next) e) refl))

    headers : (o : ℕ) → (use_block at size h).header o ≡ h1.header o
    unfolding count_up
    headers o = rw taken (
        magic_again (count_up (add32 size header_size) h1) at o
          (ap (λ (x : Header). x.magic) at_block))

    split-IsCarved : IsCarved h (use_block at size h) size prev at b back
    unfolding count_up
    split-IsCarved = record {
      chain = rw big (
          Chain-frame h1.header (use_block at size h).header prev at
            (record { used = true; next = p } ∷ record { used = false; next = b.next } ∷ back)
            (heap_end h) (λ o l u. headers o)
            (
              at_block,
              omega arith,
              omega arith,
              (at_rest, omega (arith, gap), b_fine, behind back at rest),
            ));
      front = λ o l.
          headers o
          ∙ else_same o (λ z. omega (arith, z, l)) (λ z. omega (arith, z, l))
              (inl (λ z. omega (arith, z, l)));
      end_used = ap (λ (x : Header). x.used) (headers (heap_end h) ∙ end_same) ∙ end_used;
      same = rw taken (link_rest-frame h at p b.next);
    }

  abbrev h2 : Heap
  h2 = set_used at 1 h

  module _ (small : leb (size + 24) (b.next - (at + header_size)) ≡ false) where
    whole :
        use_block at size h ≡ set_magic at heap_magic (count_up (sub32 (h.header at).next at) h2)
    unfolding use_block
    whole = rw (test, small) refl

    used_here : h2.header at ≡ header_of prev (record { used = true; next = b.next })
    used_here = rw (used_only h at) (rw e refl)

    whole_headers : (o : ℕ) → (use_block at size h).header o ≡ h2.header o
    unfolding count_up
    whole_headers o = rw whole (
        magic_again (count_up (sub32 (h.header at).next at) h2) at o
          (ap (λ (x : Header). x.magic) e))

    others : (o : ℕ) → o ≢ at → h2.header o ≡ h.header o
    others o na = rw (if_neg (ℕ_discrete o at) na 1 (h.header o).used) refl

    whole-IsCarved : IsCarved h (use_block at size h) size prev at b back
    unfolding count_up
    whole-IsCarved = record {
      chain = rw small (
        whole_headers at ∙ used_here,
        far,
        b_fine,
        Chain-frame h.header (use_block at size h).header at b.next back (heap_end h)
            (λ o l u. whole_headers o ∙ others o (λ z. omega (arith, z, l))) rest,
      );
      front = λ o l. whole_headers o ∙ others o (λ z. omega (arith, z, l));
      end_used =
          ap (λ (x : Header). x.used)
            (whole_headers (heap_end h) ∙ others (heap_end h) (λ z. omega (arith, z)))
          ∙ end_used;
      same = rw whole (refl, refl, refl, refl);
    }

  -- Either way the chain goes on through the carved block.
  pub use_block-IsCarved : IsCarved h (use_block at size h) size prev at b back
  use_block-IsCarved = elim (Bool-cases (leb (size + 24) (b.next - (at + header_size)))) [
    | inl big ↦ split-IsCarved big
    | inr small ↦ whole-IsCarved small
  ]
