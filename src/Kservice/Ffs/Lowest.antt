-- ===== src/Kservice/Ffs/Lowest.antt =====
-- The bit that `__rt_ffs` of src/kservice.c finds.
use Prim.Native.Nat.{bit_and}
use rtthread_nano_to_riscv.Prelude.{
  ℕ, ◌+◌, ◌-◌, ◌/◌, ◌^◌, ◌≤◌, ◌<◌, ◌≡◌, ◌≢◌, refl, true, ◌==◌, arith, ap, sym, ◌∙◌, dec_lt, ==_iff,
  ℕ_discrete, subst, ◌↔◌,
}
use rtthread_nano_to_riscv.Prelude.Bits.{bit, upto, upto-lt, eq_of_bits, bit-zero}
use rtthread_nano_to_riscv.Kservice.Ffs.{ffs, lowest_bit}
use rtthread_nano_to_riscv.Kservice.Ffs.Bytes.{
  IsLowest, IsByteMask, lowest_bit-lt, lowest_bit-IsLowest, bit-byte, byte_clear, byte-lt,
  byte-ne-zero,
}

byte_mask :
    (m s : ℕ)
    → upto 8 (λ i. bit m (i + s) == 1) ≡ true
    → upto s (λ i. bit m i == 0) ≡ true
    → m < 2 ^ (s + 8)
    → m / 2 ^ s ≡ 255
    → IsByteMask m s
byte_mask m s h k size top = record {
  ones = λ i l. (==_iff _ _).0 (upto-lt 8 _ i h l);
  zeros = λ i l. (==_iff _ _).0 (upto-lt s _ i k l);
  size = size;
  top = top;
}

mask_0 : IsByteMask 0xff 0
unfolding upto
mask_0 = byte_mask 0xff 0 refl refl (omega arith) refl

mask_8 : IsByteMask 0xff00 8
unfolding upto
mask_8 = byte_mask 0xff00 8 refl refl (omega arith) refl

mask_16 : IsByteMask 0xff0000 16
unfolding upto
mask_16 = byte_mask 0xff0000 16 refl refl (omega arith) refl

mask_24 : IsByteMask 0xff000000 24
unfolding upto
mask_24 = byte_mask 0xff000000 24 refl refl (omega arith) refl

-- the bits of `v` below `s` are clear
abbrev Clear : ℕ → ℕ → Type 0
Clear v s = (i : ℕ) → i < s → bit v i ≡ 0

module _ (v m s : ℕ) (k : IsByteMask m s) (c : Clear v s) where
  -- one more byte that is clear
  next_byte_zero : bit_and v m ≡ 0 → Clear v (s + 8)
  next_byte_zero e i l = elim (dec_lt i s) [
    | yes p ↦ c i p
    | no p ↦ ap (bit v) (again i p) ∙ byte_clear v m s k e (i - s) (omega arith)
  ]
    where
      again : (i : ℕ) → ¬ (i < s) → i ≡ i - s + s
      again i p = omega arith

  -- the first byte that is not clear
  found : bit_and v m ≢ 0 → IsLowest v (lowest_bit (bit_and v m / 2 ^ s) + s)
  found ne =
      let b : ℕ = bit_and v m / 2 ^ s in
      let t = lowest_bit-lt b (byte-lt v m s k) (byte-ne-zero v m s k ne) in
      let low = lowest_bit-IsLowest b (byte-lt v m s k) (byte-ne-zero v m s k ne) in
      record {
        set = sym (bit-byte v m s k (lowest_bit b) t) ∙ low.set;
        below = λ i l. elim (dec_lt i s) [
          | yes p ↦ c i p
          | no p ↦
              ap (bit v) (again i p)
              ∙ sym (bit-byte v m s k (i - s) (omega arith))
              ∙ low.below (i - s) (omega arith)
        ];
      }
    where
      again : (i : ℕ) → ¬ (i < s) → i ≡ i - s + s
      again i p = omega arith

  in_range : bit_and v m ≢ 0 → lowest_bit (bit_and v m / 2 ^ s) < 8
  in_range ne = lowest_bit-lt _ (byte-lt v m s k) (byte-ne-zero v m s k ne)

-- what `ffs` promises of a value other than 0
record Finds (v r : ℕ) : Type 0 where
  lowest : IsLowest v (r - 1)
  positive : 1 ≤ r
  bounded : r ≤ 32

finds : (v p k r : ℕ) → IsLowest v (p + k) → p < 8 → k ≤ 24 → r ≡ p + (k + 1) → Finds v r
finds v p k r low b t e = record {
  lowest = subst (IsLowest v) (omega arith) low;
  positive = omega arith;
  bounded = omega arith;
}

-- The four bytes are not all clear.
module _ (v : ℕ) (h : v < 2 ^ 32) (ne : v ≢ 0) where
  nothing : Clear v 0
  nothing i l = elim l [ ]

  last_byte : Clear v 24 → bit_and v 0xff000000 ≢ 0
  last_byte c e = ne (
      eq_of_bits 32 v 0 h (omega arith)
        λ i l. next_byte_zero v 0xff000000 24 mask_24 c e i l ∙ sym (bit-zero i))

  ffs-Finds : Finds v (ffs v)
  unfolding ffs
  ffs-Finds = elim (ℕ_discrete (bit_and v 0xff) 0) [
    | no a ↦
        finds v _ 0 _ (found v 0xff 0 mask_0 nothing a) (in_range v 0xff 0 mask_0 nothing a)
          (omega arith) (ground arith)
    | yes a ↦
        let c8 = next_byte_zero v 0xff 0 mask_0 nothing a in
        elim (ℕ_discrete (bit_and v 0xff00) 0) [
          | no b ↦
              finds v _ 8 _ (found v 0xff00 8 mask_8 c8 b) (in_range v 0xff00 8 mask_8 c8 b)
                (omega arith) (ground arith)
          | yes b ↦
              let c16 = next_byte_zero v 0xff00 8 mask_8 c8 b in
              elim (ℕ_discrete (bit_and v 0xff0000) 0) [
                | no c ↦
                    finds v _ 16 _ (found v 0xff0000 16 mask_16 c16 c)
                      (in_range v 0xff0000 16 mask_16 c16 c) (omega arith) (ground arith)
                | yes c ↦
                    let c24 = next_byte_zero v 0xff0000 16 mask_16 c16 c in
                    let d = last_byte c24 in
                    finds v _ 24 _ (found v 0xff000000 24 mask_24 c24 d)
                      (in_range v 0xff000000 24 mask_24 c24 d) (omega arith) (ground arith)
              ]
        ]
  ]

-- For a 32-bit value other than 0 the result is one more than the position of its lowest set bit, and
-- at most 32.
pub ffs-IsLowest :
    (v : ℕ) → v < 2 ^ 32 → v ≢ 0 → IsLowest v (ffs v - 1) × (1 ≤ ffs v) × (ffs v ≤ 32)
ffs-IsLowest v h ne = let f = ffs-Finds v h ne in (f.lowest, f.positive, f.bounded)

-- The result is 0 exactly at 0.
pub ffs-eq-zero_iff : (v : ℕ) → (ffs v ≡ 0) ↔ (v ≡ 0)
unfolding ffs
ffs-eq-zero_iff v = (λ e. ground arith, λ e. ground arith)
