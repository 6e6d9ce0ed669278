-- ===== src/Mem/Find.antt =====
-- The loops of `rt_malloc` of src/mem.c: the search for a block, and the search for the next free one.
use rtthread_nano_to_riscv.Prelude.{
  ℕ, zero, suc, ◌+◌, ◌-◌, ◌^◌, ◌<◌, ◌≤◌, ◌≡◌, Bool, true, false, not, ◌&&◌, leb, if◌then◌else◌,
  Bool-cases, inl, inr, List, [], ◌∷◌, ◌++◌, some, none, arith, length, dec_lt,
}
use rtthread_nano_to_riscv.Mem.{
  Header, Heap, find_block, next_free, heap_end, header_size, sub32, add32,
}
use rtthread_nano_to_riscv.Mem.Chain.{Block, Chain, Chain-le, Chain-split, end_of, first_free}

-- Whether the block at `at` is free and has room for `size` bytes.
abbrev pub fits : ℕ → ℕ → Block → Bool
fits size at b = not b.used && leb size (b.next - (at + header_size))

-- No block has.
abbrev pub NoFit : ℕ → ℕ → List Block → Type 0
NoFit size at [] = Unit
NoFit size at (b ∷ bs) = (fits size at b ≡ false) × NoFit size b.next bs

-- The sum and the difference of offsets of the heap are exact.
pub sub32_exact : (a b : ℕ) → b ≤ a → a < 2 ^ 32 → sub32 a b ≡ a - b
sub32_exact a b l w = omega arith

pub add32_exact : (a b : ℕ) → a + b < 2 ^ 32 → add32 a b ≡ a + b
add32_exact a b w = omega arith

unfit : (u r : Bool) → u ≡ true → (not u && r) ≡ false
unfit u r e = ground arith

pub first_free-ge :
    (f : ℕ → Header) (prev at : ℕ) (bs : List Block) (stop : ℕ)
    → Chain f prev at bs stop
    → at ≤ first_free at bs
first_free-ge f prev at [] stop c = omega arith
first_free-ge f prev at (b ∷ bs) stop c = ground (arith, c.1, first_free-ge f at b.next bs stop c.3)

module _ (h : Heap) (size : ℕ) (s : size ≤ h.size) (w : h.size + 24 < 2 ^ 32) where
  -- one turn of the loop
  turn :
      (fuel prev at : ℕ) (b : Block) (bs : List Block) (stop : ℕ)
      → stop ≤ heap_end h
      → Chain h.header prev at (b ∷ bs) stop
      → at < h.size - size
      → find_block (suc fuel) size at h
        ≡ (if fits size at b then some (some at) else find_block fuel size b.next h)
  unfolding find_block
  turn fuel prev at b bs stop e c l =
      let far : b.next ≤ stop = Chain-le h.header at b.next bs stop c.3 in
      ground (
        arith,
        c.0,
        c.1,
        sub32_exact h.size size s (omega arith),
        add32_exact at header_size (omega arith),
        sub32_exact b.next (at + header_size) (omega (arith, c.1)) (omega arith),
      )

  reaches :
      (at : ℕ) (d : Block) (front : List Block) (b : Block) (back : List Block) (stop : ℕ)
      {prev : ℕ}
      → Chain h.header prev at (d ∷ front ++ b ∷ back) stop
      → at < end_of at (d ∷ front)
  reaches at d front b back stop c = omega (
    arith,
    c.1,
    Chain-le h.header at d.next front (end_of d.next front)
        (Chain-split h.header at d.next front (b ∷ back) stop c.3).0,
  )

  -- The search passes the blocks with no room.
  pub find_block-pass :
      (fuel prev at : ℕ) (front : List Block) (b : Block) (back : List Block) (stop : ℕ)
      → stop ≤ heap_end h
      → Chain h.header prev at (front ++ b ∷ back) stop
      → length front < fuel
      → NoFit size at front
      → fits size (end_of at front) b ≡ true
      → end_of at front < h.size - size
      → find_block fuel size at h ≡ some (some (end_of at front))
  find_block-pass zero prev at front b back stop e c f n y l = absurd (omega arith)
  find_block-pass (suc fuel) prev at [] b back stop e c f n y l =
      rw (turn fuel prev at b back stop e c l, y)
  find_block-pass (suc fuel) prev at (d ∷ front) b back stop e c f n y l =
      rw
        (
          turn fuel prev at d (front ++ b ∷ back) stop e c
              (omega (arith, reaches at d front b back stop c)),
          n.0,
        )
        (find_block-pass fuel at d.next front b back stop e c.3 (omega arith) n.1 y l)

  too_far : (fuel at : ℕ) → h.size - size ≤ at → find_block (suc fuel) size at h ≡ some none
  unfolding find_block
  too_far fuel at l = ground (arith, sub32_exact h.size size s (omega arith))

  -- It ends with no result if there is no room in front of the last `size` bytes of the heap.
  pub find_block-stop :
      (fuel prev at : ℕ) (front back : List Block) (stop : ℕ)
      → stop ≤ heap_end h
      → Chain h.header prev at (front ++ back) stop
      → length front < fuel
      → NoFit size at front
      → h.size - size ≤ end_of at front
      → find_block fuel size at h ≡ some none
  find_block-stop zero prev at front back stop e c f n l = absurd (omega arith)
  find_block-stop (suc fuel) prev at [] back stop e c f n l = too_far fuel at l
  find_block-stop (suc fuel) prev at (d ∷ front) back stop e c f n l =
      elim (dec_lt at (h.size - size)) [
        | yes near ↦
            rw (turn fuel prev at d (front ++ back) stop e c near, n.0)
              (find_block-stop fuel at d.next front back stop e c.3 (omega arith) n.1 l)
        | no far ↦ too_far fuel at (omega (arith, far))
      ]

  -- It may start at the lowest free block.
  pub find_free-pass :
      (fuel prev at : ℕ) (front : List Block) (b : Block) (back : List Block) (stop : ℕ)
      → stop ≤ heap_end h
      → Chain h.header prev at (front ++ b ∷ back) stop
      → length front < fuel
      → NoFit size at front
      → fits size (end_of at front) b ≡ true
      → end_of at front < h.size - size
      → find_block fuel size (first_free at (front ++ b ∷ back)) h ≡ some (some (end_of at front))
  find_free-pass fuel prev at [] b back stop e c f n y l = elim (Bool-cases b.used) [
    | inl u ↦ cc (unfit b.used (leb size (b.next - (at + header_size))) u)
    | inr u ↦ rw u (find_block-pass fuel prev at [] b back stop e c f n y l)
  ]
  find_free-pass fuel prev at (d ∷ front) b back stop e c f n y l = elim (Bool-cases d.used) [
    | inl u ↦ rw u (find_free-pass fuel at d.next front b back stop e c.3 (omega arith) n.1 y l)
    | inr u ↦ rw u (find_block-pass fuel prev at (d ∷ front) b back stop e c f n y l)
  ]

  pub find_free-stop :
      (fuel prev at : ℕ) (front back : List Block) (stop : ℕ)
      → stop ≤ heap_end h
      → Chain h.header prev at (front ++ back) stop
      → length front < fuel
      → NoFit size at front
      → h.size - size ≤ end_of at front
      → find_block fuel size (first_free at (front ++ back)) h ≡ some none
  find_free-stop zero prev at front back stop e c f n l = absurd (omega arith)
  find_free-stop (suc fuel) prev at [] back stop e c f n l =
      too_far fuel (first_free at back) (omega (arith, first_free-ge h.header prev at back stop c))
  find_free-stop (suc fuel) prev at (d ∷ front) back stop e c f n l = elim (Bool-cases d.used) [
    | inl u ↦ rw u (find_free-stop (suc fuel) at d.next front back stop e c.3 (omega arith) n.1 l)
    | inr u ↦ rw u (find_block-stop (suc fuel) prev at (d ∷ front) back stop e c f n l)
  ]

-- The loop over `lfree` ends at the lowest free block from where it starts on.
pub next_free_lem :
    (h : Heap) (fuel prev at : ℕ) (bs : List Block)
    → length bs < fuel
    → (h.header (heap_end h)).used ≡ 1
    → Chain h.header prev at bs (heap_end h)
    → next_free fuel at h ≡ some (first_free at bs)
unfolding next_free
next_free_lem h zero prev at bs f u c = absurd (omega arith)
next_free_lem h (suc fuel) prev at [] f u c = ground (arith, c)
next_free_lem h (suc fuel) prev at (b ∷ bs) f u c = ground (
  arith,
  c.0,
  c.1,
  Chain-le h.header at b.next bs (heap_end h) c.3,
  next_free_lem h fuel at b.next bs (omega arith) u c.3,
)
