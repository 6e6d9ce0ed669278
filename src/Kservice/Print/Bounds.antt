-- ===== src/Kservice/Print/Bounds.antt =====
-- The bytes that the output functions of src/kservice.c write.
use rtthread_nano_to_riscv.Prelude.{
  ℕ, zero, suc, ◌+◌, ◌%◌, ◌^◌, ◌<◌, ◌≤◌, ◌≡◌, refl, ◌∙◌, Bool, true, false, ltb, not, if◌then◌else◌,
  Bool-cases, inl, inr, ◌⊎◌, List, [], ◌∷◌, if_neg, ℕ_discrete, arith,
}
use rtthread_nano_to_riscv.Kservice.Memory.{put}
use rtthread_nano_to_riscv.Kservice.Print.{
  Out, emit, emit_times, emit_all, print_parts, pad_when, mark_when, text_when, print_digits,
}

-- From `o` to `o'` the text only grows, and unless it reaches the end of the address space, no byte in
-- front of it or from `end` on changes.
pub record Grows (end : ℕ) (o o' : Out) : Type 0 where
  pub ahead : o.at ≤ o'.at
  pub kept : o'.at < 2 ^ 32 → (a : ℕ) → (a < o.at) ⊎ (end ≤ a) → o'.bytes a ≡ o.bytes a

pub Grows-refl : (end : ℕ) (o : Out) → Grows end o o
Grows-refl end o = record { ahead = omega arith; kept = λ n a h. refl }

pub Grows-trans : (end : ℕ) (o1 o2 o3 : Out) → Grows end o1 o2 → Grows end o2 o3 → Grows end o1 o3
Grows-trans end o1 o2 o3 g h = record {
  ahead = omega (arith, g.ahead, h.ahead);
  kept = λ n a w. h.kept n a (further a w) ∙ g.kept (omega (arith, n, h.ahead)) a w;
}
  where
    further : (a : ℕ) → (a < o1.at) ⊎ (end ≤ a) → (a < o2.at) ⊎ (end ≤ a)
    further a (inl l) = inl (omega (arith, l, g.ahead))
    further a (inr l) = inr l

pub Grows-emit : (end c : ℕ) (o : Out) → Grows end o (emit end c o)
unfolding emit
Grows-emit end c o = record { ahead = omega arith; kept = λ n a w. keep n a w }
  where
    apart :
        (a : ℕ)
        → o.at + 1 < 2 ^ 32
        → (a < o.at) ⊎ (end ≤ a)
        → ltb (o.at % 2 ^ 32) end ≡ true
        → a ≡ o.at % 2 ^ 32
        → ⊥
    apart a n (inl l) e q = omega (arith, n, l, q)
    apart a n (inr l) e q = ground arith

    keep :
        o.at + 1 < 2 ^ 32
        → (a : ℕ) → (a < o.at) ⊎ (end ≤ a)
        → (if ltb (o.at % 2 ^ 32) end then put (o.at % 2 ^ 32) c o.bytes else o.bytes) a ≡ o.bytes a
    keep n a w = elim (Bool-cases (ltb (o.at % 2 ^ 32) end)) [
      | inl e ↦ rw (e, if_neg (ℕ_discrete a (o.at % 2 ^ 32)) (apart a n w e)) refl
      | inr e ↦ rw e refl
    ]

pub Grows-emit_times : (end c n : ℕ) (o : Out) → Grows end o (emit_times end c n o)
unfolding emit_times
Grows-emit_times end c zero o = Grows-refl end o
Grows-emit_times end c (suc n) o =
    Grows-trans end o (emit end c o) _ (Grows-emit end c o)
      (Grows-emit_times end c n (emit end c o))

pub Grows-emit_all : (end : ℕ) (cs : List ℕ) (o : Out) → Grows end o (emit_all end cs o)
unfolding emit_all
Grows-emit_all end [] o = Grows-refl end o
Grows-emit_all end (c ∷ cs) o =
    Grows-trans end o (emit end c o) _ (Grows-emit end c o) (Grows-emit_all end cs (emit end c o))

pub Grows-if :
    (b : Bool) (end : ℕ) (o x y : Out)
    → Grows end o x
    → Grows end o y
    → Grows end o (if b then x else y)
Grows-if true end o x y g h = g
Grows-if false end o x y g h = h

module _ (end : ℕ) where
  pub Grows-pad_when : (b : Bool) (c n : ℕ) (o : Out) → Grows end o (pad_when b end c n o)
  unfolding pad_when
  Grows-pad_when b c n o = Grows-if b end o _ o (Grows-emit_times end c n o) (Grows-refl end o)

  Grows-mark_when : (b : Bool) (c : ℕ) (o : Out) → Grows end o (mark_when b end c o)
  unfolding mark_when
  Grows-mark_when b c o = Grows-if b end o _ o (Grows-emit end c o) (Grows-refl end o)

  Grows-text_when : (b : Bool) (tmp : List ℕ) (o : Out) → Grows end o (text_when b end tmp o)
  unfolding text_when
  Grows-text_when b tmp o = Grows-if b end o _ o (Grows-emit_all end tmp o) (Grows-refl end o)

  Grows-print_parts :
      (in_front signed at_left shown : Bool) (size1 mark c size3 zeros : ℕ) (tmp : List ℕ) (o : Out)
      → Grows end o (print_parts end in_front signed at_left shown size1 mark c size3 zeros tmp o)
  unfolding print_parts
  Grows-print_parts in_front signed at_left shown size1 mark c size3 zeros tmp o =
      let o1 = pad_when in_front end 32 size1 o in
      let o2 = mark_when signed end mark o1 in
      let o3 = pad_when (not at_left) end c size3 o2 in
      let o4 = emit_times end 48 zeros o3 in
      let o5 = text_when shown end tmp o4 in
      Grows-trans end o o1 _ (Grows-pad_when in_front 32 size1 o) (
        Grows-trans end o1 o2 _ (Grows-mark_when signed mark o1) (
          Grows-trans end o2 o3 _ (Grows-pad_when (not at_left) c size3 o2) (
            Grows-trans end o3 o4 _ (Grows-emit_times end 48 zeros o3) (
              Grows-trans end o4 o5 _ (Grows-text_when shown tmp o4)
                (Grows-pad_when at_left 32 size3 o5)))))

  pub Grows-print_digits :
      (s precision type mark : ℕ) (tmp : List ℕ) (o : Out)
      → Grows end o (print_digits end s precision type mark tmp o)
  unfolding print_digits
  Grows-print_digits s precision type mark tmp o = Grows-print_parts _ _ _ _ _ _ _ _ _ tmp o
