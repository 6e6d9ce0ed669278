-- ===== src/Kservice/Memory/Copying.antt =====
-- `rt_memcpy` and `rt_memmove` of src/kservice.c beside a copy byte by byte.
use rtthread_nano_to_riscv.Prelude.{
  ℕ, zero, suc, ◌+◌, ◌-◌, ◌%◌, ◌<◌, ◌≤◌, ◌≡◌, ◌≢◌, refl, ap, ◌∙◌, true, false, ◌&&◌, ◌==◌, leb, ltb,
  if◌then◌else◌, Bool-cases, inl, inr, ◌⊎◌, arith, ℕ_discrete, if_pos, if_neg, dec_lt,
}
use rtthread_nano_to_riscv.Kservice.Memory.{
  Bytes, put, copy_word, Copy, copy_quads, copy_words, copy_bytes, memcpy, move_back, memmove,
}

-- the memory `m` with its `k` bytes from `s` on at `d`
abbrev pub copied : ℕ → ℕ → ℕ → Bytes → Bytes
copied d s k m a = if leb d a && ltb a (d + k) then m (s + (a - d)) else m a

-- A copy from the front on reads no byte that it wrote.
abbrev pub Forward : ℕ → ℕ → ℕ → Type 0
Forward d s n = (d ≤ s) ⊎ (s + n ≤ d)

module _ (d s n : ℕ) (m : Bytes) (w : Forward d s n) where
  outside : (k x : ℕ) → k ≤ n → k ≤ x → x < n → (leb d (s + x) && ltb (s + x) (d + k)) ≡ false
  outside k x l h u = go w
    where
      go : Forward d s n → (leb d (s + x) && ltb (s + x) (d + k)) ≡ false
      go (inl q) = ground arith
      go (inr q) = ground arith

  -- what is read next is as it was
  unread :
      (k x : ℕ) (m' : Bytes)
      → k ≤ n
      → k ≤ x
      → x < n
      → ((a : ℕ) → m' a ≡ copied d s k m a)
      → m' (s + x) ≡ m (s + x)
  unread k x m' l h u f = f (s + x) ∙ (rw (outside k x l h u) refl)

  -- one byte more
  put-copied :
      (k k2 at v : ℕ) (m' : Bytes)
      → k2 ≡ k + 1
      → at ≡ d + k
      → v ≡ m (s + k)
      → ((a : ℕ) → m' a ≡ copied d s k m a)
      → (a : ℕ) → put at v m' a ≡ copied d s k2 m a
  put-copied k k2 at v m' p q e f a = elim (ℕ_discrete a at) [
    | yes z ↦ rw (if_pos (ℕ_discrete a at) z, inside a z) (e ∙ ap m (offset a z))
    | no z ↦ rw (if_neg (ℕ_discrete a at) z) (f a ∙ same a z)
  ]
    where
      inside : (a : ℕ) → a ≡ at → (leb d a && ltb a (d + k2)) ≡ true
      inside a z = ground arith

      offset : (a : ℕ) → a ≡ at → s + k ≡ s + (a - d)
      offset a z = omega (arith, z, q)

      same : (a : ℕ) → a ≢ at → copied d s k m a ≡ copied d s k2 m a
      same a z = ground arith

  copy_word-copied :
      (k k4 x y : ℕ) (m' : Bytes)
      → k4 ≡ k + 4
      → x ≡ d + k
      → y ≡ s + k
      → k4 ≤ n
      → ((a : ℕ) → m' a ≡ copied d s k m a)
      → (a : ℕ) → copy_word x y m' a ≡ copied d s k4 m a
  copy_word-copied k k4 x y m' e4 ex ey l f =
      let read = λ (i z : ℕ) (g : z ≡ s + (k + i)) (u : k + i < n).
        ap m' g ∙ unread k (k + i) m' (omega arith) (omega arith) u f in
      let at_y : m' y ≡ m (s + k) =
        ap m' ey ∙ unread k k m' (omega arith) (omega arith) (omega arith) f in
      put-copied (k + 3) k4 (x + 3) (m' (y + 3)) _ (omega arith) (omega arith)
        (read 3 (y + 3) (omega arith) (omega arith))
        (put-copied (k + 2) (k + 3) (x + 2) (m' (y + 2)) _ (omega arith) (omega arith)
          (read 2 (y + 2) (omega arith) (omega arith))
          (put-copied (k + 1) (k + 2) (x + 1) (m' (y + 1)) _ (omega arith) (omega arith)
            (read 1 (y + 1) (omega arith) (omega arith))
            (put-copied k (k + 1) x (m' y) m' (omega arith) ex at_y f)))

  -- A state of the loops after `k` bytes.
  abbrev Copies : ℕ → Copy → Type 0
  Copies k st =
      (st.dst ≡ d + k)
      × (st.src ≡ s + k)
      × (k + st.len ≡ n)
      × ((a : ℕ) → st.bytes a ≡ copied d s k m a)

  copy_quads-Copies :
      (fuel k : ℕ) (st : Copy) → Copies k st → (j : ℕ) × Copies j (copy_quads fuel st)
  unfolding copy_quads
  copy_quads-Copies zero k st f = (k, f)
  copy_quads-Copies (suc fuel) k st f = elim (Bool-cases (leb 16 st.len)) [
    | inr q ↦ (k, rw q f)
    | inl q ↦
        let ge : 16 ≤ st.len = ground arith in
        let end = f.2 in
        let m1 = copy_word-copied k (k + 4) st.dst st.src st.bytes refl f.0 f.1 (omega arith) f.3 in
        let m2 =
          copy_word-copied (k + 4) (k + 8) (st.dst + 4) (st.src + 4) _ (omega arith)
            (omega (arith, f.0)) (omega (arith, f.1)) (omega arith) m1 in
        let m3 =
          copy_word-copied (k + 8) (k + 12) (st.dst + 8) (st.src + 8) _ (omega arith)
            (omega (arith, f.0)) (omega (arith, f.1)) (omega arith) m2 in
        let m4 =
          copy_word-copied (k + 12) (k + 16) (st.dst + 12) (st.src + 12) _ (omega arith)
            (omega (arith, f.0)) (omega (arith, f.1)) (omega arith) m3 in
        rw q (
          copy_quads-Copies fuel (k + 16) _
            (omega (arith, f.0), omega (arith, f.1), omega (arith, end, ge), m4))
  ]

  copy_words-Copies :
      (fuel k : ℕ) (st : Copy) → Copies k st → (j : ℕ) × Copies j (copy_words fuel st)
  unfolding copy_words
  copy_words-Copies zero k st f = (k, f)
  copy_words-Copies (suc fuel) k st f = elim (Bool-cases (leb 4 st.len)) [
    | inr q ↦ (k, rw q f)
    | inl q ↦
        let ge : 4 ≤ st.len = ground arith in
        let end = f.2 in
        let m1 = copy_word-copied k (k + 4) st.dst st.src st.bytes refl f.0 f.1 (omega arith) f.3 in
        rw q (
          copy_words-Copies fuel (k + 4) _
            (omega (arith, f.0), omega (arith, f.1), omega (arith, end, ge), m1))
  ]

  pub copy_bytes-copied :
      (len k dst src : ℕ) (m' : Bytes)
      → dst ≡ d + k
      → src ≡ s + k
      → k + len ≡ n
      → ((a : ℕ) → m' a ≡ copied d s k m a)
      → (a : ℕ) → copy_bytes len dst src m' a ≡ copied d s n m a
  unfolding copy_bytes
  copy_bytes-copied zero k dst src m' e1 e2 e3 f a = let q : k ≡ n = omega arith in rw (← q) (f a)
  copy_bytes-copied (suc len) k dst src m' e1 e2 e3 f a =
      copy_bytes-copied len (k + 1) (dst + 1) (src + 1) (put dst (m' src) m') (omega arith)
        (omega arith) (omega arith)
        (put-copied k (k + 1) dst (m' src) m' refl e1
          (ap m' e2 ∙ unread k k m' (omega arith) (omega arith) (omega arith) f) f)
        a

untouched : (d s : ℕ) (m : Bytes) (a : ℕ) → m a ≡ copied d s 0 m a
untouched d s m a = ground arith

-- `rt_memcpy` between ranges that do not overlap, or to a lower address, leaves in the destination what
-- was in the source, and all else as it was: by words or not, it does what a loop over the bytes does.
pub memcpy-copied :
    (dst src count : ℕ) (m : Bytes)
    → Forward dst src count
    → (a : ℕ)
    → memcpy dst src count m a
      ≡ (if leb dst a && ltb a (dst + count) then m (src + (a - dst)) else m a)
unfolding memcpy
memcpy-copied dst src count m w a =
    let start : Copy = record { dst = dst; src = src; len = count; bytes = m } in
    let none : Copies dst src count m w 0 start =
      (omega arith, omega arith, omega arith, untouched dst src m) in
    elim (Bool-cases (leb 16 count && src % 4 == 0 && dst % 4 == 0)) [
      | inl q ↦
          let quads = copy_quads-Copies dst src count m w count 0 start none in
          let words = copy_words-Copies dst src count m w count quads.0 _ quads.1 in
          rw q (
            copy_bytes-copied dst src count m w _ words.0 _ _ _ words.1.0 words.1.1 words.1.2
              words.1.3 a)
      | inr q ↦
          rw q (copy_bytes-copied dst src count m w count 0 dst src m none.0 none.1 none.2 none.3 a)
    ]

-- the memory `m` with the bytes from the `n`th to the one before `total` copied
abbrev copied_back : ℕ → ℕ → ℕ → ℕ → Bytes → Bytes
copied_back d s n total m a = if leb (d + n) a && ltb a (d + total) then m (s + (a - d)) else m a

put-copied_back :
    (d s n total at v : ℕ) (m m' : Bytes)
    → at ≡ d + n
    → n < total
    → v ≡ m (s + n)
    → ((a : ℕ) → m' a ≡ copied_back d s (suc n) total m a)
    → (a : ℕ) → put at v m' a ≡ copied_back d s n total m a
put-copied_back d s n total at v m m' q u e f a = elim (ℕ_discrete a at) [
  | yes z ↦ rw (if_pos (ℕ_discrete a at) z, inside a z) (e ∙ ap m (offset a z))
  | no z ↦ rw (if_neg (ℕ_discrete a at) z) (f a ∙ same a z)
]
  where
    inside : (a : ℕ) → a ≡ at → (leb (d + n) a && ltb a (d + total)) ≡ true
    inside a z = ground arith

    offset : (a : ℕ) → a ≡ at → s + n ≡ s + (a - d)
    offset a z = omega (arith, z, q)

    same : (a : ℕ) → a ≢ at → copied_back d s (suc n) total m a ≡ copied_back d s n total m a
    same a z = ground arith

-- The backward loop copies to a higher address.
move_back-copied :
    (n tmp y d s total : ℕ) (m m' : Bytes)
    → s < d
    → tmp ≡ d + n
    → y ≡ s + n
    → n ≤ total
    → ((a : ℕ) → m' a ≡ copied_back d s n total m a)
    → (a : ℕ) → move_back n tmp y m' a ≡ copied d s total m a
unfolding move_back
move_back-copied zero tmp y d s total m m' l e1 e2 u f a = f a ∙ whole d s total m a
  where
    whole : (d s total : ℕ) (m : Bytes) (a : ℕ) → copied_back d s 0 total m a ≡ copied d s total m a
    whole d s total m a = ground arith
move_back-copied (suc n) tmp y d s total m m' l e1 e2 u f a =
    move_back-copied n (tmp - 1) (y - 1) d s total m (put (tmp - 1) (m' (y - 1)) m') l (omega arith)
      (omega arith) (omega arith)
      (put-copied_back d s n total (tmp - 1) (m' (y - 1)) m m' (omega arith) (omega arith)
        (f (y - 1) ∙ (rw (below d s n total y l e2) (ap m (omega arith)))) f)
      a
  where
    below :
        (d s n total y : ℕ)
        → s < d
        → y ≡ s + suc n
        → (leb (d + suc n) (y - 1) && ltb (y - 1) (d + total)) ≡ false
    below d s n total y l e = ground arith

-- `rt_memmove` does so whether or not the ranges overlap.
pub memmove-copied :
    (dest src n : ℕ) (m : Bytes) (a : ℕ)
    → memmove dest src n m a
      ≡ (if leb dest a && ltb a (dest + n) then m (src + (a - dest)) else m a)
unfolding memmove
memmove-copied dest src n m a = elim (Bool-cases (ltb src dest && ltb dest (src + n))) [
  | inl q ↦
      let l : src < dest = ground arith in
      rw q (
        move_back-copied n (dest + n) (src + n) dest src n m m l refl refl (omega arith)
          (nothing dest src n m) a)
  | inr q ↦
      let w : Forward dest src n = apart dest src n q in
      rw q (
        copy_bytes-copied dest src n m w n 0 dest src m (omega arith) (omega arith) (omega arith)
          (untouched dest src m) a)
]
  where
    nothing : (d s n : ℕ) (m : Bytes) (a : ℕ) → m a ≡ copied_back d s n n m a
    nothing d s n m a = ground arith

    apart : (d s n : ℕ) → (ltb s d && ltb d (s + n)) ≡ false → (d ≤ s) ⊎ (s + n ≤ d)
    apart d s n q = elim (dec_lt s d) [ yes h ↦ inr (ground arith) | no h ↦ inl (omega (arith, h)) ]
