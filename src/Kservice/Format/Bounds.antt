-- ===== src/Kservice/Format/Bounds.antt =====
-- The bytes that the conversions of `rt_vsnprintf` of src/kservice.c write.
use rtthread_nano_to_riscv.Prelude.{
  ℕ, zero, suc, ◌+◌, ◌-◌, ◌%◌, ◌^◌, ◌==◌, Bool, not, Bool-cases, inl, inr,
}
use rtthread_nano_to_riscv.Kservice.Print.{Out, emit, pad_when, has, left, above_zero}
use rtthread_nano_to_riscv.Kservice.Print.Bounds.{
  Grows, Grows-refl, Grows-trans, Grows-emit, Grows-pad_when,
}
use rtthread_nano_to_riscv.Kservice.Format.{
  Directive, emit_string, print_char, print_string, print_other,
}

module _ (end : ℕ) where
  pub Grows-print_char : (c : ℕ) (d : Directive) (o : Out) → Grows end o (print_char end c d o)
  unfolding print_char
  Grows-print_char c d o =
      let o1 = pad_when (not (has d.flags left)) end 32 (above_zero d.width - 1) o in
      let o2 = emit end (c % 2 ^ 8) o1 in
      Grows-trans end o o1 _
        (Grows-pad_when end (not (has d.flags left)) 32 (above_zero d.width - 1) o)
        (Grows-trans end o1 o2 _ (Grows-emit end (c % 2 ^ 8) o1)
          (Grows-pad_when end (has d.flags left) 32 (above_zero d.width - 1) o2))

  Grows-emit_string : (s n : ℕ) (o : Out) → Grows end o (emit_string end s n o)
  unfolding emit_string
  Grows-emit_string s zero o = Grows-refl end o
  Grows-emit_string s (suc n) o =
      Grows-trans end o (emit end (o.bytes s) o) _ (Grows-emit end (o.bytes s) o)
        (Grows-emit_string (s + 1) n (emit end (o.bytes s) o))

  pad_string_pad :
      (at_left : Bool) (s pad len : ℕ) (o : Out)
      → Grows end o (
          pad_when at_left end 32 pad (emit_string end s len (pad_when (not at_left) end 32 pad o)))
  pad_string_pad at_left s pad len o =
      let o1 = pad_when (not at_left) end 32 pad o in
      let o2 = emit_string end s len o1 in
      Grows-trans end o o1 _ (Grows-pad_when end (not at_left) 32 pad o) (
        Grows-trans end o1 o2 _ (Grows-emit_string s len o1) (Grows-pad_when end at_left 32 pad o2))

  pub Grows-print_string :
      (s length : ℕ) (d : Directive) (o : Out) → Grows end o (print_string end s length d o)
  unfolding print_string
  Grows-print_string s length d o = pad_string_pad (has d.flags left) s _ _ o

  pub Grows-print_other : (d : Directive) (o : Out) → Grows end o (print_other end d o).1
  unfolding print_other
  Grows-print_other d o =
      let o1 = emit end 37 o in
      let g = Grows-emit end 37 o in
      elim (Bool-cases (o1.bytes d.fmt == 0)) [
        | inl e ↦ rw e g
        | inr e ↦ rw e (Grows-trans end o o1 _ g (Grows-emit end (o1.bytes d.fmt) o1))
      ]
