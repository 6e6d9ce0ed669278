-- ===== src/Prelude/Bits.antt =====
-- The bits of a native number, and what `&`, `|` and the masks of the kernel do to them.
use Prim.Native.Nat.{
  ℕ, zero, suc, ◌+◌, ◌-◌, ◌*◌, ◌/◌, ◌%◌, ◌^◌, ◌≤◌, ◌<◌, min, max, digits, bitwise, bit_and, bit_or,
  bit_and-bitwise, bit_or-bitwise,
}
use mathlib.Core.Path.{◌≡◌, refl, sym, ap, ◌∙◌}
use mathlib.Core.Logic.{◌≢◌}
use native.Mathlib.Nat.{
  le_refl, pow-suc, one-le-pow, add-zero, add-suc, div-div-eq-div-mul, mul_comm,
}
use mathlib.Core.Bool.{Bool, true, false}
use native.Mathlib.Omega.{arith}

-- The library gives `&` and `|` as a digit recursion on fuel. Any two amounts of fuel that suffice
-- agree, so the recursion has an equation for its lowest digit that names no fuel.
module _ (rest : ℕ → ℕ) (op : ℕ → ℕ → ℕ) where
  enough_fuel : (j k x y : ℕ) → x ≤ j → x ≤ k → digits rest op j x y ≡ digits rest op k x y
  enough_fuel zero zero _ _ _ _ = refl
  enough_fuel zero (suc k) (suc x) _ xj _ = absurd (omega arith)
  enough_fuel (suc j) zero (suc x) _ _ xk = absurd (omega arith)
  enough_fuel zero (suc k) zero _ _ _ = refl
  enough_fuel (suc j) zero zero _ _ _ = refl
  enough_fuel (suc j) (suc k) zero _ _ _ = refl
  enough_fuel (suc j) (suc k) (suc x) y xj xk =
      let same = enough_fuel j k (suc x / 2) (y / 2) (omega arith) (omega arith) in
      ap (λ (t : ℕ). t * 2 + op (suc x % 2) (y % 2)) same

  lowest_digit :
      (x y : ℕ)
      → bitwise rest op (suc x) y ≡ bitwise rest op (suc x / 2) (y / 2) * 2 + op (suc x % 2) (y % 2)
  lowest_digit x y =
      let h : suc x / 2 ≤ x = omega arith in
      let same = enough_fuel x (suc x / 2) (suc x / 2) (y / 2) h (le_refl _) in
      ap (λ (t : ℕ). t * 2 + op (suc x % 2) (y % 2)) same

pub bit_or_halves : (x y : ℕ) → bit_or x y ≡ bit_or (x / 2) (y / 2) * 2 + max (x % 2) (y % 2)
bit_or_halves (suc x) y = simp bit_or-bitwise (lowest_digit (λ y. y) max x y)
bit_or_halves zero y = simp bit_or-bitwise (omega arith)

pub bit_and_halves : (x y : ℕ) → bit_and x y ≡ bit_and (x / 2) (y / 2) * 2 + min (x % 2) (y % 2)
bit_and_halves (suc x) y = simp bit_and-bitwise (lowest_digit (λ _. 0) min x y)
bit_and_halves zero y = simp bit_and-bitwise (omega arith)

-- Bit `i` of `a`, 0 or 1.
abbrev pub bit : ℕ → ℕ → ℕ
bit a zero = a % 2
bit a (suc i) = bit (a / 2) i

pub bit-bit_or : (a b i : ℕ) → bit (bit_or a b) i ≡ max (bit a i) (bit b i)
bit-bit_or a b zero = omega (arith, bit_or_halves a b)
bit-bit_or a b (suc i) = rw (half a b) (bit-bit_or (a / 2) (b / 2) i)
  where
    half : (a b : ℕ) → bit_or a b / 2 ≡ bit_or (a / 2) (b / 2)
    half a b = omega (arith, bit_or_halves a b)

pub bit-bit_and : (a b i : ℕ) → bit (bit_and a b) i ≡ min (bit a i) (bit b i)
bit-bit_and a b zero = omega (arith, bit_and_halves a b)
bit-bit_and a b (suc i) = rw (half a b) (bit-bit_and (a / 2) (b / 2) i)
  where
    half : (a b : ℕ) → bit_and a b / 2 ≡ bit_and (a / 2) (b / 2)
    half a b = omega (arith, bit_and_halves a b)

pub bit-le-one : (a i : ℕ) → bit a i ≤ 1
bit-le-one a zero = omega arith
bit-le-one a (suc i) = bit-le-one (a / 2) i

pub bit-zero : (i : ℕ) → bit 0 i ≡ 0
bit-zero zero = refl
bit-zero (suc i) = bit-zero i

-- `1 << p`
pub bit-pow_self : (p : ℕ) → bit (2 ^ p) p ≡ 1
bit-pow_self zero = refl
bit-pow_self (suc p) = rw (half p) (bit-pow_self p)
  where
    half : (p : ℕ) → (2 ^ suc p) / 2 ≡ 2 ^ p
    half p = omega (arith, pow-suc 2 p)

pub bit-pow_ne : (p i : ℕ) → i ≢ p → bit (2 ^ p) i ≡ 0
bit-pow_ne zero zero ne = absurd (ne refl)
bit-pow_ne zero (suc i) ne = bit-zero i
bit-pow_ne (suc p) zero ne = omega (arith, pow-suc 2 p)
bit-pow_ne (suc p) (suc i) ne = rw (half p) (bit-pow_ne p i (λ e. ne (ap suc e)))
  where
    half : (p : ℕ) → (2 ^ suc p) / 2 ≡ 2 ^ p
    half p = omega (arith, pow-suc 2 p)

-- `~a` on w bits
pub bit-complement : (w a i : ℕ) → a < 2 ^ w → i < w → bit (2 ^ w - 1 - a) i ≡ 1 - bit a i
bit-complement zero a i h l = absurd (omega arith)
bit-complement (suc w) a zero h l = omega (arith, pow-suc 2 w, one-le-pow w 2)
bit-complement (suc w) a (suc i) h l =
    rw (half w a h) (bit-complement w (a / 2) i (omega (arith, pow-suc 2 w)) (omega arith))
  where
    half : (w a : ℕ) → a < 2 ^ suc w → (2 ^ suc w - 1 - a) / 2 ≡ 2 ^ w - 1 - a / 2
    half w a h = omega (arith, pow-suc 2 w, one-le-pow w 2)

-- A number is given by its bits.
pub eq_of_bits : (w a b : ℕ) → a < 2 ^ w → b < 2 ^ w → ((i : ℕ) → i < w → bit a i ≡ bit b i) → a ≡ b
eq_of_bits zero a b h k e = omega arith
eq_of_bits (suc w) a b h k e = omega (
  arith,
  e 0 (omega arith),
  eq_of_bits w (a / 2) (b / 2) (omega (arith, pow-suc 2 w)) (omega (arith, pow-suc 2 w))
      (λ i l. e (suc i) (omega arith)),
)

-- `a >> s`
pub bit-shift : (a s i : ℕ) → bit (a / 2 ^ s) i ≡ bit a (i + s)
bit-shift a zero i = ap (λ (t : ℕ). bit t i) (omega arith) ∙ ap (bit a) (sym (add-zero i))
bit-shift a (suc s) i =
    ap (λ (t : ℕ). bit t i) (halved a s) ∙ bit-shift (a / 2) s i ∙ ap (bit a) (sym (add-suc i s))
  where
    halved : (a s : ℕ) → a / 2 ^ suc s ≡ (a / 2) / 2 ^ s
    halved a s = rw (pow-suc, mul_comm) (sym (div-div-eq-div-mul a 2 (2 ^ s)))

pub bit_and-le_fuel : (n a b : ℕ) → a ≤ n → bit_and a b ≤ b
bit_and-le_fuel n zero b h = omega (arith, bit_and-bitwise 0 b)
bit_and-le_fuel (suc n) (suc a) b h =
    omega (arith, bit_and_halves (suc a) b, bit_and-le_fuel n (suc a / 2) (b / 2) (omega arith))
bit_and-le_fuel zero (suc a) b h = absurd (omega arith)

pub bit_and-le : (a b : ℕ) → bit_and a b ≤ b
bit_and-le a b = bit_and-le_fuel a a b (le_refl a)

pub bit_or-lt : (w a b : ℕ) → a < 2 ^ w → b < 2 ^ w → bit_or a b < 2 ^ w
bit_or-lt zero a b h k = ground (arith, omega_zero a h, omega_zero b k)
  where
    omega_zero : (a : ℕ) → a < 1 → a ≡ 0
    omega_zero a h = omega arith
bit_or-lt (suc w) a b h k = omega (
  arith,
  pow-suc 2 w,
  bit_or_halves a b,
  bit_or-lt w (a / 2) (b / 2) (omega (arith, pow-suc 2 w)) (omega (arith, pow-suc 2 w)),
)

pub pow-lt : (w p : ℕ) → p < w → 2 ^ p < 2 ^ w
pow-lt zero p h = absurd (omega arith)
pow-lt (suc w) zero h = omega (arith, pow-suc 2 w, one-le-pow w 2)
pow-lt (suc w) (suc p) h = omega (arith, pow-suc 2 w, pow-suc 2 p, pow-lt w p)

-- Over a small range a property is checked by evaluation.
unfoldable pub upto : ℕ → (ℕ → Bool) → Bool
upto zero test = true
upto (suc n) test = elim (test n) [ true ↦ upto n test | false ↦ false ]

pub upto-lt : (n : ℕ) (test : ℕ → Bool) (x : ℕ) → upto n test ≡ true → x < n → test x ≡ true
unfolding upto
upto-lt zero test x h l = absurd (omega arith)
upto-lt (suc n) test x h l = ground (arith, upto-lt n test x)

-- A flag at bit 0, cleared by a mask that has no such bit.
pub bit_and-clear_zero : (a m : ℕ) → m % 2 ≡ 0 → bit_and (bit_and a m) 1 ≡ 0
bit_and-clear_zero a m h =
    omega (arith, bit-bit_and (bit_and a m) 1 0, bit-bit_and a m 0, bit_and-le (bit_and a m) 1)
