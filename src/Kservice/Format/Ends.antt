-- ===== src/Kservice/Format/Ends.antt =====
-- One conversion of `rt_vsnprintf` of src/kservice.c: its end, and the bytes that it writes.
use Prim.Native.Nat.{bit_and, bit_or}
use mathlib.Core.Option
use rtthread_nano_to_riscv.Prelude.{
  ℕ, zero, suc, ◌+◌, ◌^◌, ◌<◌, ◌≤◌, ◌≡◌, ◌≢◌, refl, ap, ◌∙◌, Bool, true, false, ◌==◌, ◌||◌,
  if◌then◌else◌, Option, some, Bool-cases, inl, inr, ◌⊎◌, arith,
}
use rtthread_nano_to_riscv.Kservice.Memory.{Bytes}
use rtthread_nano_to_riscv.Kservice.Strings.{strlen}
use rtthread_nano_to_riscv.Kservice.Print.{
  Out, emit, print_number, print_digits, number_digits, sign_mark, has, sign, left, large,
}
use rtthread_nano_to_riscv.Kservice.Print.Digits.{number_digits-some}
use rtthread_nano_to_riscv.Kservice.Print.Bounds.{Grows, Grows-emit, Grows-print_digits}
use rtthread_nano_to_riscv.Kservice.Format.{
  Directive, print_string, print_other, narrow_num, print_integer, print_pointer, convert,
}
use rtthread_nano_to_riscv.Kservice.Format.Bounds.{
  Grows-print_char, Grows-print_string, Grows-print_other,
}
use rtthread_nano_to_riscv.Kservice.Format.Reading.{in_front}

-- The string at `s` ends within the fuel, at a byte outside of the buffer and in the address space.
abbrev pub IsText : ℕ → ℕ → ℕ → Bytes → ℕ → Type 0
IsText fuel buf end m s =
    (n : ℕ) × (n < fuel) × (m (s + n) ≡ 0) × ((s + n < buf) ⊎ (end ≤ s + n)) × (s + n < 2 ^ 32)

strlen-some :
    (fuel n s : ℕ) (m : Bytes) → n < fuel → m (s + n) ≡ 0 → (len : ℕ) × (strlen fuel s m ≡ some len)
unfolding strlen
strlen-some zero n s m l e = absurd (omega arith)
strlen-some (suc fuel) zero s m l e = let q : m s ≡ 0 = ap m (omega arith) ∙ e in (0, rw q)
strlen-some (suc fuel) (suc n) s m l e = elim (Bool-cases (m s == 0)) [
  | inl q ↦ (0, rw q)
  | inr q ↦
      let r = strlen-some fuel n (s + 1) m (omega (arith, l)) (ap m (omega arith) ∙ e) in
      (suc r.0, rw q (ap (Option.map suc) r.1))
]

print_number-some :
    (end num base s precision type : ℕ) (o : Out)
    → num < 2 ^ 32
    → (o' : Out) × (print_number end num base s precision type o ≡ some o') × Grows end o o'
unfolding print_number
print_number-some end num base s precision type o h =
    go (if has type left then bit_and type 0xfe else type)
  where
    go :
        (type1 : ℕ)
        → (o' : Out) × (Option.map
              (λ tmp. print_digits end s precision type1 (sign_mark type1 num) tmp o)
              (number_digits base type1 num)
            ≡ some o')
          × Grows end o o'
    go type1 =
        let r = number_digits-some base type1 num h in
        (
          _,
          ap (Option.map (λ tmp. print_digits end s precision type1 (sign_mark type1 num) tmp o))
              r.1,
          Grows-print_digits end s precision type1 (sign_mark type1 num) r.0 o,
        )

narrow_num-lt : (flags qualifier v : ℕ) → narrow_num flags qualifier v < 2 ^ 32
unfolding narrow_num
narrow_num-lt flags qualifier v = ground arith

-- One part of the `switch`: it only adds text, and unless that reaches the end of the address space, it
-- ends in front of the null byte at `z` or at it.
abbrev pub Converts : ℕ → ℕ → Directive → Out → Option (Directive × Out) → Type 0
Converts end z d o r =
    (p : Directive × Out) × (r ≡ some p)
    × (d.fmt ≤ p.0.fmt)
    × (p.1.at < 2 ^ 32 → p.0.fmt ≤ z)
    × Grows end o p.1

Converts-if :
    (b : Bool) (end z : ℕ) (d : Directive) (o : Out) (x y : Option (Directive × Out))
    → (b ≡ true → Converts end z d o x)
    → Converts end z d o y
    → Converts end z d o (if b then x else y)
Converts-if true end z d o x y f g = f refl
Converts-if false end z d o x y f g = g

module _ (end z : ℕ) (d : Directive) (o : Out) (h : o.bytes z ≡ 0) (l : d.fmt ≤ z) where
  behind : (k : ℕ) → 0 < k → (o.bytes d.fmt == k) ≡ true → d.fmt + 1 ≤ z
  behind k p e = in_front o.bytes z h d.fmt l (nonzero (o.bytes d.fmt) k p e)
    where
      nonzero : (c k : ℕ) → 0 < k → (c == k) ≡ true → c ≢ 0
      nonzero c k p e = ground arith

  print_integer-Converts :
      (base flag : ℕ) (args : ℕ → ℕ)
      → d.fmt + 1 ≤ z
      → Converts end z d o (print_integer end base flag args d o)
  unfolding print_integer
  print_integer-Converts base flag args n =
      let flags = bit_or d.flags flag in
      let next : Directive = record d { fmt = d.fmt + 1; arg = d.arg + 1 } in
      let r =
        print_number-some end (narrow_num flags d.qualifier (args d.arg)) base d.width d.precision
          flags o (narrow_num-lt flags d.qualifier (args d.arg)) in
      ((next, r.0), ap (Option.map (λ o'. (next, o'))) r.1, omega arith, (λ i. n), r.2)

  print_pointer-Converts :
      (args : ℕ → ℕ)
      → args d.arg < 2 ^ 32
      → d.fmt + 1 ≤ z
      → Converts end z d o (print_pointer end args d o)
  unfolding print_pointer
  print_pointer-Converts args w n =
      let next : Directive = record d { fmt = d.fmt + 1; arg = d.arg + 1 } in
      let r = print_number-some end (args d.arg) 16 _ d.precision _ o w in
      ((next, r.0), ap (Option.map (λ o'. (next, o'))) r.1, omega arith, (λ i. n), r.2)

  behind_or : (o.bytes d.fmt == 100 || o.bytes d.fmt == 105) ≡ true → d.fmt + 1 ≤ z
  behind_or e = in_front o.bytes z h d.fmt l (nonzero (o.bytes d.fmt) e)
    where
      nonzero : (c : ℕ) → (c == 100 || c == 105) ≡ true → c ≢ 0
      nonzero c e = ground arith

  print_other-ahead : d.fmt ≤ (print_other end d o).0.fmt
  unfolding print_other
  print_other-ahead = elim (Bool-cases ((emit end 37 o).bytes d.fmt == 0)) [
    | inl e ↦ rw e (omega arith)
    | inr e ↦ rw e (omega arith)
  ]

  print_other-at : o.at + 1 ≤ (print_other end d o).1.at
  unfolding print_other
  print_other-at = elim (Bool-cases ((emit end 37 o).bytes d.fmt == 0)) [
    | inl e ↦ rw e (omega arith)
    | inr e ↦ rw e (omega arith)
  ]

  print_other-fmt : (z < o.at) ⊎ (end ≤ z) → o.at + 1 < 2 ^ 32 → (print_other end d o).0.fmt ≤ z
  unfolding print_other
  print_other-fmt out i =
      let o1 = emit end 37 o in
      let h1 : o1.bytes z ≡ 0 = (Grows-emit end 37 o).kept i z out ∙ h in
      elim (Bool-cases (o1.bytes d.fmt == 0)) [
        | inl e ↦ rw e l
        | inr e ↦ rw e (in_front o1.bytes z h1 d.fmt l (nonzero (o1.bytes d.fmt) e))
      ]
    where
      nonzero : (c : ℕ) → (c == 0) ≡ false → c ≢ 0
      nonzero c e = ground arith

  pub convert-Converts :
      (fuel null_text : ℕ) (args : ℕ → ℕ)
      → args d.arg < 2 ^ 32
      → (n : ℕ) × (n < fuel)
        × (o.bytes ((if args d.arg == 0 then null_text else args d.arg) + n) ≡ 0)
      → (z < o.at) ⊎ (end ≤ z)
      → Converts end z d o (convert fuel null_text end args d o)
  unfolding convert
  convert-Converts fuel null_text args w text out =
      let int = λ (base flag : ℕ) (n : d.fmt + 1 ≤ z). print_integer-Converts base flag args n in
      Converts-if _ end z d o _ _
        (λ e. (
          _,
          refl,
          omega arith,
          (λ i. behind 99 (omega arith) e),
          Grows-print_char end (args d.arg) d o,
        ))
        (Converts-if _ end z d o _ _ (λ e. string (behind 115 (omega arith) e))
          (Converts-if _ end z d o _ _
            (λ e. print_pointer-Converts args w (behind 112 (omega arith) e))
            (Converts-if _ end z d o _ _
              (λ e. (_, refl, omega arith, (λ i. behind 37 (omega arith) e), Grows-emit end 37 o))
              (Converts-if _ end z d o _ _ (λ e. int 8 0 (behind 111 (omega arith) e))
                (Converts-if _ end z d o _ _ (λ e. int 16 large (behind 88 (omega arith) e))
                  (Converts-if _ end z d o _ _ (λ e. int 16 0 (behind 120 (omega arith) e))
                    (Converts-if _ end z d o _ _ (λ e. int 10 sign (behind_or e))
                      (Converts-if _ end z d o _ _ (λ e. int 10 0 (behind 117 (omega arith) e))
                        (
                          print_other end d o,
                          refl,
                          print_other-ahead,
                          (λ i. print_other-fmt out (omega (arith, i, print_other-at))),
                          Grows-print_other end d o,
                        )))))))))
    where
      string :
          d.fmt + 1 ≤ z
          → Converts end z d o (
              let s = if args d.arg == 0 then null_text else args d.arg in
              Option.map
                (λ len. (record d { fmt = d.fmt + 1; arg = d.arg + 1 }, print_string end s len d o))
                (strlen fuel s o.bytes))
      string n =
          let s = if args d.arg == 0 then null_text else args d.arg in
          let r = strlen-some fuel text.0 s o.bytes text.1 text.2 in
          (
            _,
            ap
                (Option.map (λ len.
                  (record d { fmt = d.fmt + 1; arg = d.arg + 1 }, print_string end s len d o)))
                r.1,
            omega arith,
            (λ i. n),
            Grows-print_string end s r.0 d o,
          )
