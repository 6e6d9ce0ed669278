-- ===== src/Kservice/Memory/Filling.antt =====
-- `rt_memset` of src/kservice.c beside a loop over the bytes.
use rtthread_nano_to_riscv.Prelude.{
  ℕ, zero, suc, ◌+◌, ◌/◌, ◌%◌, ◌^◌, ◌<◌, ◌≤◌, ◌≡◌, refl, Bool, true, ◌&&◌, ◌==◌, ==_iff, leb, ltb,
  if◌then◌else◌, Bool-cases, inl, inr, arith, ite, ℕ_discrete,
}
use rtthread_nano_to_riscv.Prelude.Bits.{upto, upto-lt}
use rtthread_nano_to_riscv.Kservice.Memory.{
  Bytes, put, store_buffer, Fill, buffer, fill_quads, fill_words, fill_bytes, memset,
}

-- the memory `m` with `d` from `s` up to `e`
abbrev pub filled : ℕ → ℕ → ℕ → Bytes → Bytes
filled s e d m a = if leb s a && ltb a e then d else m a

-- The four bytes of the buffer.
byte_table :
    upto 256 (λ d.
      (buffer d % 2 ^ 8 == d)
      && (buffer d / 2 ^ 8 % 2 ^ 8 == d)
      && (buffer d / 2 ^ 16 % 2 ^ 8 == d)
      && (buffer d / 2 ^ 24 % 2 ^ 8 == d))
    ≡ true
unfolding upto buffer
byte_table = refl

all_true :
    (a b c d : Bool) → (a && b && c && d) ≡ true → (a ≡ true) × (b ≡ true) × (c ≡ true) × (d ≡ true)
all_true a b c d e = ground arith

buffer-bytes :
    (d : ℕ)
    → d < 256
    → (buffer d % 2 ^ 8 ≡ d)
      × (buffer d / 2 ^ 8 % 2 ^ 8 ≡ d)
      × (buffer d / 2 ^ 16 % 2 ^ 8 ≡ d)
      × (buffer d / 2 ^ 24 % 2 ^ 8 ≡ d)
buffer-bytes d h =
    let t = all_true _ _ _ _ (upto-lt 256 _ d byte_table h) in
    ((==_iff _ _).0 t.0, (==_iff _ _).0 t.1, (==_iff _ _).0 t.2, (==_iff _ _).0 t.3)

-- A state of the loops from `m`, for the range from `s` up to `e`.
abbrev pub Fills : ℕ → ℕ → ℕ → Bytes → Fill → Type 0
Fills s e d m st =
    (s ≤ st.at) × (st.at + st.count ≡ e) × ((a : ℕ) → st.bytes a ≡ filled s st.at d m a)

store_buffer-filled :
    (d s at x : ℕ) (m m' : Bytes)
    → d < 256
    → s ≤ at
    → at + 4 ≡ x
    → ((a : ℕ) → m' a ≡ filled s at d m a)
    → (a : ℕ) → store_buffer at (buffer d) m' a ≡ filled s x d m a
store_buffer-filled d s at x m m' h l q f a =
    let b = buffer-bytes d h in rw (b.0, b.1, b.2, b.3) (four d s at x a (m' a) (m a) l q (f a))
  where
    four :
        (d s at x a v w : ℕ)
        → s ≤ at
        → at + 4 ≡ x
        → v ≡ (if leb s a && ltb a at then d else w)
        → ite (ℕ_discrete a (at + 3)) d (
            ite
              (ℕ_discrete a (at + 2))
              d
              (ite (ℕ_discrete a (at + 1)) d (ite (ℕ_discrete a at) d v)))
          ≡ (if leb s a && ltb a x then d else w)
    four d s at x a v w l q e = ground arith

fill_quads-Fills :
    (d s e fuel : ℕ) (m : Bytes) (st : Fill)
    → d < 256
    → Fills s e d m st
    → Fills s e d m (fill_quads fuel (buffer d) st)
unfolding fill_quads
fill_quads-Fills d s e zero m st h f = f
fill_quads-Fills d s e (suc fuel) m st h f = elim (Bool-cases (leb 16 st.count)) [
  | inr q ↦ rw q f
  | inl q ↦
      let ge : 16 ≤ st.count = ground arith in
      let m1 = store_buffer-filled d s st.at (st.at + 4) m st.bytes h f.0 refl f.2 in
      let m2 =
        store_buffer-filled d s (st.at + 4) (st.at + 8) m _ h (omega (arith, f.0)) (omega arith)
          m1 in
      let m3 =
        store_buffer-filled d s (st.at + 8) (st.at + 12) m _ h (omega (arith, f.0)) (omega arith)
          m2 in
      let m4 =
        store_buffer-filled d s (st.at + 12) (st.at + 16) m _ h (omega (arith, f.0)) (omega arith)
          m3 in
      rw q (fill_quads-Fills d s e fuel m _ h (omega (arith, f.0), omega (arith, f.1, ge), m4))
]

fill_words-Fills :
    (d s e fuel : ℕ) (m : Bytes) (st : Fill)
    → d < 256
    → Fills s e d m st
    → Fills s e d m (fill_words fuel (buffer d) st)
unfolding fill_words
fill_words-Fills d s e zero m st h f = f
fill_words-Fills d s e (suc fuel) m st h f = elim (Bool-cases (leb 4 st.count)) [
  | inr q ↦ rw q f
  | inl q ↦
      let ge : 4 ≤ st.count = ground arith in
      let m1 = store_buffer-filled d s st.at (st.at + 4) m st.bytes h f.0 refl f.2 in
      rw q (fill_words-Fills d s e fuel m _ h (omega (arith, f.0), omega (arith, f.1, ge), m1))
]

fill_bytes-filled :
    (count d s at e : ℕ) (m m' : Bytes)
    → s ≤ at
    → at + count ≡ e
    → ((a : ℕ) → m' a ≡ filled s at d m a)
    → (a : ℕ) → fill_bytes count at d m' a ≡ filled s e d m a
unfolding fill_bytes
fill_bytes-filled zero d s at e m m' l q f a = let k : at ≡ e = omega arith in rw (← k) (f a)
fill_bytes-filled (suc count) d s at e m m' l q f a =
    fill_bytes-filled count d s (at + 1) e m (put at d m') (omega arith) (omega arith)
      (λ b. one b (m' b) (m b) (f b)) a
  where
    one :
        (b v w : ℕ)
        → v ≡ (if leb s b && ltb b at then d else w)
        → ite (ℕ_discrete b at) d v ≡ (if leb s b && ltb b (at + 1) then d else w)
    one b v w k = ground arith

unmoved : (s d b w : ℕ) → w ≡ (if leb s b && ltb b s then d else w)
unmoved s d b w = ground arith

-- `rt_memset` stores the low byte of `c` in the `count` bytes from `s` on and nowhere else: by words or
-- not, it does what a loop over the bytes does.
pub memset-filled :
    (s c count : ℕ) (m : Bytes) (a : ℕ)
    → memset s c count m a ≡ (if leb s a && ltb a (s + count) then c % 2 ^ 8 else m a)
unfolding memset
memset-filled s c count m a =
    let start : Fill = record { at = s; count = count; bytes = m } in
    let d = c % 2 ^ 8 in
    let b : d < 256 = omega arith in
    let none : Fills s (s + count) d m start = (omega arith, refl, λ b. unmoved s d b (m b)) in
    elim (Bool-cases (leb 4 count && s % 4 == 0)) [
      | inl q ↦
          let w =
            fill_words-Fills d s (s + count) count m _ b
              (fill_quads-Fills d s (s + count) count m start b none) in
          rw q (fill_bytes-filled _ d s _ (s + count) m _ w.0 w.1 w.2 a)
      | inr q ↦ rw q (fill_bytes-filled count d s s (s + count) m m none.0 refl none.2 a)
    ]
