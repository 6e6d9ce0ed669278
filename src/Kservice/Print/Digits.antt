-- ===== src/Kservice/Print/Digits.antt =====
-- The digits that `print_number` of src/kservice.c puts into `tmp`.
use rtthread_nano_to_riscv.Prelude.{
  ℕ, zero, suc, ◌+◌, ◌-◌, ◌*◌, ◌/◌, ◌%◌, ◌^◌, ◌<◌, ◌≤◌, ◌≡◌, refl, ap, ◌∙◌, sym, Bool, false, ◌&&◌,
  ◌==◌, leb, if◌then◌else◌, Bool-cases, inl, inr, List, [], ◌∷◌, length, some, arith,
}
use rtthread_nano_to_riscv.Kservice.Print.{
  divide, digit, digits_loop, number_digits, has, sign, large,
}

-- the number that decimal digits stand for, behind digits that stand for `n`
abbrev pub decimal : ℕ → List ℕ → ℕ
decimal n [] = n
decimal n (c ∷ cs) = decimal (n * 10 + c - 48) cs

zero_or_more : (n : ℕ) → (n == 0) ≡ false → 0 < n
zero_or_more n e = ground arith

quotients : (n p : ℕ) → n < 10 * p → (n / 10 < p) × (n / 16 < p)
quotients n p h = (omega arith, omega arith)

power : (n fuel : ℕ) → n < 10 ^ suc fuel → n < 10 * 10 ^ fuel
power n fuel h = omega arith

smaller : (n base fuel : ℕ) → n < 10 ^ suc fuel → (divide n base).1 < 10 ^ fuel
unfolding divide
smaller n base fuel h = elim (Bool-cases (base == 10)) [
  | inl e ↦ rw e (quotients n (10 ^ fuel) (power n fuel h)).0
  | inr e ↦ rw e (quotients n (10 ^ fuel) (power n fuel h)).1
]

-- The loop ends within its fuel, for any base.
pub digits_loop-some :
    (fuel base num : ℕ) (upper : Bool) (tmp : List ℕ)
    → num < 10 ^ fuel
    → (xs : List ℕ) × (digits_loop fuel upper base num tmp ≡ some xs)
unfolding digits_loop
digits_loop-some zero base num upper tmp h = (tmp, ground arith)
digits_loop-some (suc fuel) base num upper tmp h = elim (Bool-cases (num == 0)) [
  | inl e ↦ (tmp, rw e)
  | inr e ↦
      let r =
        digits_loop-some fuel base (divide num base).1 upper (digit upper (divide num base).0 ∷ tmp)
          (smaller num base fuel h) in
      (r.0, rw e r.1)
]

-- the last step of a division by ten, undone
tens : (n : ℕ) → n / 10 * 10 + (48 + n % 10) - 48 ≡ n
tens n = omega arith

digit-decimal : (upper : Bool) (d : ℕ) → d < 10 → digit upper d ≡ 48 + d
unfolding digit
digit-decimal upper d h = ground arith

-- In decimal, what it ends with stands for the number.
pub digits_loop-decimal :
    (fuel num : ℕ) (upper : Bool) (tmp : List ℕ)
    → num < 10 ^ fuel
    → (xs : List ℕ) × (digits_loop fuel upper 10 num tmp ≡ some xs)
      × (decimal 0 xs ≡ decimal num tmp)
      × (length xs ≤ fuel + length tmp)
unfolding digits_loop divide
digits_loop-decimal zero num upper tmp h =
    let e : num ≡ 0 = omega arith in (tmp, ground (arith, e), rw e refl, omega arith)
digits_loop-decimal (suc fuel) num upper tmp h = elim (Bool-cases (num == 0)) [
  | inl e ↦ let z : num ≡ 0 = ground (arith, e) in (tmp, rw e, rw z refl, omega arith)
  | inr e ↦
      let q = (quotients num (10 ^ fuel) (power num fuel h)).0 in
      let r = digits_loop-decimal fuel (num / 10) upper (digit upper (num % 10) ∷ tmp) q in
      (
        r.0,
        rw e r.1,
        r.2
            ∙ ap (λ c. decimal (num / 10 * 10 + c - 48) tmp)
                (digit-decimal upper (num % 10) (omega arith))
            ∙ ap (λ n. decimal n tmp) (tens num),
        omega (arith, r.3),
      )
]

-- the magnitude that `print_number` prints
abbrev pub magnitude : ℕ → ℕ → ℕ
magnitude type num = if has type sign && leb (2 ^ 31) num then 2 ^ 32 - num else num

fits : (type num : ℕ) → num < 2 ^ 32 → magnitude type num < 10 ^ 16
fits type num h = ground arith

pub number_digits-some :
    (base type num : ℕ) → num < 2 ^ 32 → (xs : List ℕ) × (number_digits base type num ≡ some xs)
unfolding number_digits
number_digits-some base type num h = go (magnitude type num) (fits type num h)
  where
    go :
        (n : ℕ)
        → n < 10 ^ 16
        → (xs : List ℕ) × ((if n == 0
              then some (48 ∷ [])
              else digits_loop 16 (has type large) base n [])
            ≡ some xs)
    go n f = elim (Bool-cases (n == 0)) [
      | inl e ↦ (48 ∷ [], rw e)
      | inr e ↦ let r = digits_loop-some 16 base n (has type large) [] f in (r.0, rw e r.1)
    ]

-- The 16 characters of `tmp` are enough for every `long`, and its decimal digits, read as a number, give
-- the magnitude: the number itself, or its negation where it is signed and negative.
pub number_digits-decimal :
    (type num : ℕ)
    → num < 2 ^ 32
    → (xs : List ℕ) × (number_digits 10 type num ≡ some xs)
      × (decimal 0 xs ≡ magnitude type num)
      × (length xs ≤ 16)
unfolding number_digits
number_digits-decimal type num h = go (magnitude type num) (fits type num h)
  where
    go :
        (n : ℕ)
        → n < 10 ^ 16
        → (xs : List ℕ) × ((if n == 0
              then some (48 ∷ [])
              else digits_loop 16 (has type large) 10 n [])
            ≡ some xs)
          × (decimal 0 xs ≡ n)
          × (length xs ≤ 16)
    go n f = elim (Bool-cases (n == 0)) [
      | inl e ↦ let z : n ≡ 0 = ground (arith, e) in (48 ∷ [], rw e, sym z, omega arith)
      | inr e ↦ let r = digits_loop-decimal 16 n (has type large) [] f in (r.0, rw e r.1, r.2, r.3)
    ]
