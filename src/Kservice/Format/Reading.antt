-- ===== src/Kservice/Format/Reading.antt =====
-- The parts of `rt_vsnprintf` of src/kservice.c that read a directive, and the null byte of the format.
use Prim.Native.Nat.{bit_or}
use mathlib.Core.Option
use rtthread_nano_to_riscv.Prelude.{
  ℕ, zero, suc, ◌+◌, ◌-◌, ◌*◌, ◌%◌, ◌^◌, ◌<◌, ◌≤◌, ◌≡◌, ◌≢◌, refl, ap, ◌∙◌, true, false, ◌==◌, ◌||◌,
  leb, Option, some, Bool-cases, inl, inr, arith,
}
use rtthread_nano_to_riscv.Kservice.Memory.{Bytes}
use rtthread_nano_to_riscv.Kservice.Print.{isdigit, above_zero}
use rtthread_nano_to_riscv.Kservice.Format.{
  Directive, skip_atoi, flag_of, read_flags, width_of, read_width, read_digits, read_precision,
  read_qualifier,
}

module _ (m : Bytes) (z : ℕ) (h : m z ≡ 0) where
  -- a character that is not 0 is in front of the null byte
  pub in_front : (a : ℕ) → a ≤ z → m a ≢ 0 → a + 1 ≤ z
  in_front a l n = ground (arith, h)

  flag_of-zero : flag_of 0 ≡ 0
  unfolding flag_of
  flag_of-zero = refl

  -- the result of a part that goes on from `d`
  abbrev pub Reads : ℕ → Option Directive → Type 0
  Reads at r = (d' : Directive) × (r ≡ some d') × (at ≤ d'.fmt) × (d'.fmt ≤ z)

  pub read_flags-Reads :
      (fuel : ℕ) (d : Directive)
      → d.fmt < z
      → z ≤ d.fmt + fuel
      → Reads (d.fmt + 1) (read_flags fuel m d)
  unfolding read_flags
  read_flags-Reads zero d l f = absurd (omega (arith, l, f))
  read_flags-Reads (suc fuel) d l f = elim (Bool-cases (flag_of (m (d.fmt + 1)) == 0)) [
    | inl e ↦ (record d { fmt = d.fmt + 1 }, rw e, omega arith, omega (arith, l))
    | inr e ↦
        let n : m (d.fmt + 1) ≢ 0 =
          λ q. not_zero (flag_of (m (d.fmt + 1))) e (ap flag_of q ∙ flag_of-zero) in
        let r =
          read_flags-Reads fuel
            (record d { fmt = d.fmt + 1; flags = bit_or d.flags (flag_of (m (d.fmt + 1))) })
            (omega (arith, in_front (d.fmt + 1) (omega (arith, l)) n)) (omega (arith, f)) in
        (r.0, rw e r.1, omega (arith, r.2), r.3)
  ]
    where
      not_zero : (n : ℕ) → (n == 0) ≡ false → n ≢ 0
      not_zero n e = ground arith

  digit_not_zero : (c : ℕ) → isdigit c ≡ true → c ≢ 0
  digit_not_zero c e = ground arith

  pub skip_atoi-Reads :
      (fuel i s : ℕ)
      → s ≤ z
      → z < s + fuel
      → (r : ℕ × ℕ) × (skip_atoi fuel i s m ≡ some r) × (s ≤ r.1) × (r.1 ≤ z)
  unfolding skip_atoi
  skip_atoi-Reads zero i s l f = absurd (omega arith)
  skip_atoi-Reads (suc fuel) i s l f = elim (Bool-cases (isdigit (m s))) [
    | inr e ↦ ((i, s), rw e, omega arith, l)
    | inl e ↦
        let r =
          skip_atoi-Reads fuel ((i * 10 + m s - 48) % 2 ^ 32) (s + 1)
            (in_front s l (digit_not_zero (m s) e)) (omega arith) in
        (r.0, rw e r.1, omega (arith, r.2), r.3)
  ]

  is_not_zero : (c k : ℕ) → 0 < k → (c == k) ≡ true → c ≢ 0
  is_not_zero c k l e = ground arith

  pub read_width-Reads :
      (fuel : ℕ) (args : ℕ → ℕ) (d : Directive)
      → d.fmt ≤ z
      → z < d.fmt + fuel
      → Reads d.fmt (read_width fuel args m d)
  unfolding read_width width_of
  read_width-Reads fuel args d l f = elim (Bool-cases (isdigit (m d.fmt))) [
    | inl e ↦
        let r = skip_atoi-Reads fuel 0 d.fmt l f in
        (
          record d { width = r.0.0; fmt = r.0.1 },
          rw e (ap (Option.map (λ p. record d { width = p.0; fmt = p.1 })) r.1),
          r.2,
          r.3,
        )
    | inr e ↦ elim (Bool-cases (m d.fmt == 42)) [
      | inr q ↦ (d, rw (e, q), omega arith, l)
      | inl q ↦
          let front = in_front d.fmt l (is_not_zero (m d.fmt) 42 (omega arith) q) in
          let b = by_one (args d.arg) d front in (width_of (args d.arg) d, rw (e, q), b.0, b.1)
    ]
  ]
    where
      by_one :
          (w : ℕ) (d : Directive)
          → d.fmt + 1 ≤ z
          → (d.fmt ≤ (width_of w d).fmt) × ((width_of w d).fmt ≤ z)
      by_one w d l = elim (Bool-cases (leb (2 ^ 31) w)) [
        | inl g ↦ rw g (omega arith, l)
        | inr g ↦ rw g (omega arith, l)
      ]

  pub read_precision-Reads :
      (fuel : ℕ) (args : ℕ → ℕ) (d : Directive)
      → d.fmt ≤ z
      → z < d.fmt + fuel
      → Reads d.fmt (read_precision fuel args m d)
  unfolding read_precision read_digits
  read_precision-Reads fuel args d l f = elim (Bool-cases (m d.fmt == 46)) [
    | inr e ↦ (d, rw e, omega arith, l)
    | inl e ↦
        let at : d.fmt + 1 ≤ z = in_front d.fmt l (is_not_zero (m d.fmt) 46 (omega arith) e) in
        elim (Bool-cases (isdigit (m (d.fmt + 1)))) [
          | inl q ↦
              let r = skip_atoi-Reads fuel 0 (d.fmt + 1) at (omega arith) in
              (
                record d { precision = above_zero r.0.0; fmt = r.0.1 },
                rw (e, q)
                    (ap (Option.map (λ p. record d { precision = above_zero p.0; fmt = p.1 })) r.1),
                omega (arith, r.2),
                r.3,
              )
          | inr q ↦ elim (Bool-cases (m (d.fmt + 1) == 42)) [
            | inr g ↦ (record d { precision = 0; fmt = d.fmt + 1 }, rw (e, q, g), omega arith, at)
            | inl g ↦ (
              record d {
                precision = above_zero (args d.arg);
                fmt = d.fmt + 1 + 1;
                arg = d.arg + 1;
              },
              rw (e, q, g),
              omega arith,
              in_front (d.fmt + 1) at (is_not_zero (m (d.fmt + 1)) 42 (omega arith) g),
            )
          ]
        ]
  ]

  pub read_qualifier-le :
      (d : Directive)
      → d.fmt ≤ z
      → (d.fmt ≤ (read_qualifier m d).fmt) × ((read_qualifier m d).fmt ≤ z)
  unfolding read_qualifier
  read_qualifier-le d l = elim (Bool-cases (m d.fmt == 104 || m d.fmt == 108)) [
    | inl e ↦ rw e (omega arith, in_front d.fmt l (qualifies (m d.fmt) e))
    | inr e ↦ rw e (omega arith, l)
  ]
    where
      qualifies : (c : ℕ) → (c == 104 || c == 108) ≡ true → c ≢ 0
      qualifies c e = ground arith
