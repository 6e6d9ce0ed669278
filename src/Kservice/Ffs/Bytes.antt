-- ===== src/Kservice/Ffs/Bytes.antt =====
-- The bytes that `__rt_ffs` of src/kservice.c picks out of its argument, and the table over bytes.
use Prim.Native.Nat.{bit_and}
use native.Mathlib.Nat.{le_trans, div-mul-le_self, le-div_iff_mul-le, one-le-pow}
use rtthread_nano_to_riscv.Prelude.{
  ℕ, ◌+◌, ◌-◌, ◌*◌, ◌/◌, ◌^◌, ◌≤◌, ◌<◌, ◌≡◌, ◌≢◌, refl, Bool, true, ◌&&◌, ◌||◌, ◌==◌, ltb, leb,
  arith, ap, sym, ◌∙◌, dec_lt,
}
use rtthread_nano_to_riscv.Prelude.Bits.{
  bit, upto, upto-lt, bit-bit_and, bit-shift, bit_and-le, eq_of_bits, bit-le-one, bit-zero,
}
use rtthread_nano_to_riscv.Kservice.Ffs.{lowest_bit}

byte_test : ℕ → ℕ → Bool
byte_test b t = b == 0 || (ltb t 8 && (bit b t == 1 && upto 8 (λ i. leb t i || bit b i == 0)))

byte_table : upto 256 (λ b. byte_test b (lowest_bit b)) ≡ true
unfolding upto byte_test lowest_bit
byte_table = refl

-- The bit of `v` at `p` is set, and none below it is.
pub record IsLowest (v p : ℕ) : Type 0 where
  pub set : bit v p ≡ 1
  pub below : (i : ℕ) → i < p → bit v i ≡ 0

module _ (b t : ℕ) (h : byte_test b t ≡ true) (ne : b ≢ 0) where
  byte_test-lt : t < 8
  unfolding byte_test
  byte_test-lt = ground arith

  byte_test-IsLowest : IsLowest b t
  unfolding byte_test
  byte_test-IsLowest = record {
    set = ground arith;
    below = λ i l. ground (arith, byte_test-lt, upto-lt 8 (λ (i : ℕ). leb t i || bit b i == 0) i);
  }

module _ (b : ℕ) (h : b < 256) (ne : b ≢ 0) where
  pub lowest_bit-lt : lowest_bit b < 8
  lowest_bit-lt = byte_test-lt b (lowest_bit b) (upto-lt 256 _ b byte_table h) ne

  pub lowest_bit-IsLowest : IsLowest b (lowest_bit b)
  lowest_bit-IsLowest = byte_test-IsLowest b (lowest_bit b) (upto-lt 256 _ b byte_table h) ne

-- A mask of the eight bits from bit `s` on.
pub record IsByteMask (m s : ℕ) : Type 0 where
  pub ones : (i : ℕ) → i < 8 → bit m (i + s) ≡ 1
  pub zeros : (i : ℕ) → i < s → bit m i ≡ 0
  pub size : m < 2 ^ (s + 8)
  pub top : m / 2 ^ s ≡ 255

module _ (v m s : ℕ) (k : IsByteMask m s) where
  pub bit-byte : (i : ℕ) → i < 8 → bit (bit_and v m / 2 ^ s) i ≡ bit v (i + s)
  bit-byte i l = omega (
    arith,
    bit-shift (bit_and v m) s i,
    bit-bit_and v m (i + s),
    k.ones i l,
    bit-le-one v (i + s),
  )

  pub byte_clear : bit_and v m ≡ 0 → (i : ℕ) → i < 8 → bit v (i + s) ≡ 0
  byte_clear e i l = omega (
    arith,
    bit-bit_and v m (i + s),
    ap (λ (t : ℕ). bit t (i + s)) e,
    bit-zero (i + s),
    k.ones i l,
    bit-le-one v (i + s),
  )

  pub byte-lt : bit_and v m / 2 ^ s < 256
  byte-lt =
      let x : ℕ = bit_and v m / 2 ^ s in
      let below : x * 2 ^ s ≤ m =
        le_trans (div-mul-le_self (bit_and v m) (2 ^ s)) (bit_and-le v m) in
      omega (arith, (le-div_iff_mul-le (one-le-pow s 2 (omega arith))).1 below, k.top)

  pub byte-ne-zero : bit_and v m ≢ 0 → bit_and v m / 2 ^ s ≢ 0
  byte-ne-zero ne e = ne (
      eq_of_bits (s + 8) (bit_and v m) 0 (omega (arith, bit_and-le v m, k.size))
        (omega (arith, k.size)) λ i l. bits i l ∙ sym (bit-zero i))
    where
      again : (i : ℕ) → ¬ (i < s) → i - s + s ≡ i
      again i p = omega arith

      bits : (i : ℕ) → i < s + 8 → bit (bit_and v m) i ≡ 0
      bits i l = elim (dec_lt i s) [
        | yes p ↦ omega (arith, bit-bit_and v m i, k.zeros i p)
        | no p ↦ omega (
          arith,
          bit-shift (bit_and v m) s (i - s),
          ap (λ (t : ℕ). bit t (i - s)) e,
          bit-zero (i - s),
          ap (λ (t : ℕ). bit (bit_and v m) t) (again i p),
        )
      ]
