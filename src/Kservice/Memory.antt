-- ===== src/Kservice/Memory.antt =====
-- The memory routines of src/kservice.c, without RT_USING_TINY_SIZE: `rt_memset`, `rt_memcpy`,
-- `rt_memmove` and `rt_memcmp`, on a memory of bytes. Addresses do not wrap.
pub mod Filling
pub mod Copying
use Prim.Native.Nat.{bit_or}
use rtthread_nano_to_riscv.Prelude.{
  ℕ, zero, suc, ◌+◌, ◌-◌, ◌*◌, ◌/◌, ◌%◌, ◌^◌, Bool, true, false, ◌&&◌, ◌==◌, leb, ltb,
  if◌then◌else◌, ite, ℕ_discrete,
}

-- the byte at each address
abbrev pub Bytes : Type 0
Bytes = ℕ → ℕ

abbrev pub put : ℕ → ℕ → Bytes → Bytes
put at v m a = ite (ℕ_discrete a at) v (m a)

-- a store of four bytes to a word
abbrev pub put_word : ℕ → ℕ → ℕ → ℕ → ℕ → Bytes → Bytes
put_word at b0 b1 b2 b3 m = put (at + 3) b3 (put (at + 2) b2 (put (at + 1) b1 (put at b0 m)))

-- a loop of `rt_memset`: `aligned_addr` or `m`, and `count`
pub record Fill : Type 0 where
  pub at : ℕ
  pub count : ℕ
  pub bytes : Bytes

-- `buffer`: the byte `d` four times
unfoldable pub buffer : ℕ → ℕ
buffer d = let half = bit_or (d * 2 ^ 8) d in bit_or half (half * 2 ^ 16)

-- `*aligned_addr++ = buffer`, least significant byte first
abbrev pub store_buffer : ℕ → ℕ → Bytes → Bytes
store_buffer at b =
    put_word at (b % 2 ^ 8) (b / 2 ^ 8 % 2 ^ 8) (b / 2 ^ 16 % 2 ^ 8) (b / 2 ^ 24 % 2 ^ 8)

-- The loops of `rt_memset` by four words, by words and by bytes, the first two on fuel.
unfoldable pub fill_quads : ℕ → ℕ → Fill → Fill
fill_quads zero b s = s
fill_quads (suc fuel) b s =
    let rest = fill_quads fuel b (record {
      at = s.at + 16;
      count = s.count - 16;
      bytes =
          store_buffer (s.at + 12) b
            (store_buffer (s.at + 8) b (store_buffer (s.at + 4) b (store_buffer s.at b s.bytes)));
    }) in
    if leb 16 s.count then rest else s

unfoldable pub fill_words : ℕ → ℕ → Fill → Fill
fill_words zero b s = s
fill_words (suc fuel) b s =
    let rest =
      fill_words fuel b
        (record { at = s.at + 4; count = s.count - 4; bytes = store_buffer s.at b s.bytes }) in
    if leb 4 s.count then rest else s

unfoldable pub fill_bytes : ℕ → ℕ → ℕ → Bytes → Bytes
fill_bytes zero at d m = m
fill_bytes (suc count) at d m = fill_bytes count (at + 1) d (put at d m)

-- The fuel `count` is enough for both loops by words.
unfoldable pub memset : ℕ → ℕ → ℕ → Bytes → Bytes
unfolding buffer fill_quads fill_words fill_bytes
memset s c count m =
    let d = c % 2 ^ 8 in
    let start : Fill = record { at = s; count = count; bytes = m } in
    let rest =
      if leb 4 count && s % 4 == 0
      then fill_words count (buffer d) (fill_quads count (buffer d) start)
      else start in
    fill_bytes rest.count rest.at d rest.bytes

-- a loop of `rt_memcpy`
pub record Copy : Type 0 where
  pub dst : ℕ
  pub src : ℕ
  pub len : ℕ
  pub bytes : Bytes

-- `*aligned_dst++ = *aligned_src++`
abbrev pub copy_word : ℕ → ℕ → Bytes → Bytes
copy_word dst src m = put_word dst (m src) (m (src + 1)) (m (src + 2)) (m (src + 3)) m

unfoldable pub copy_quads : ℕ → Copy → Copy
copy_quads zero s = s
copy_quads (suc fuel) s =
    let rest = copy_quads fuel (record {
      dst = s.dst + 16;
      src = s.src + 16;
      len = s.len - 16;
      bytes = copy_word (s.dst + 12) (s.src + 12) (
          copy_word (s.dst + 8) (s.src + 8)
            (copy_word (s.dst + 4) (s.src + 4) (copy_word s.dst s.src s.bytes)));
    }) in
    if leb 16 s.len then rest else s

unfoldable pub copy_words : ℕ → Copy → Copy
copy_words zero s = s
copy_words (suc fuel) s =
    let rest = copy_words fuel (record {
      dst = s.dst + 4;
      src = s.src + 4;
      len = s.len - 4;
      bytes = copy_word s.dst s.src s.bytes;
    }) in
    if leb 4 s.len then rest else s

unfoldable pub copy_bytes : ℕ → ℕ → ℕ → Bytes → Bytes
copy_bytes zero dst src m = m
copy_bytes (suc len) dst src m = copy_bytes len (dst + 1) (src + 1) (put dst (m src) m)

unfoldable pub memcpy : ℕ → ℕ → ℕ → Bytes → Bytes
unfolding copy_quads copy_words copy_bytes
memcpy dst src count m =
    let start : Copy = record { dst = dst; src = src; len = count; bytes = m } in
    let rest =
      if leb 16 count && src % 4 == 0 && dst % 4 == 0
      then copy_words count (copy_quads count start)
      else start in
    copy_bytes rest.len rest.dst rest.src rest.bytes

-- the backward loop of `rt_memmove`
unfoldable pub move_back : ℕ → ℕ → ℕ → Bytes → Bytes
move_back zero tmp s m = m
move_back (suc n) tmp s m = move_back n (tmp - 1) (s - 1) (put (tmp - 1) (m (s - 1)) m)

unfoldable pub memmove : ℕ → ℕ → ℕ → Bytes → Bytes
unfolding move_back copy_bytes
memmove dest src n m =
    if ltb src dest && ltb dest (src + n)
    then move_back n (dest + n) (src + n) m
    else copy_bytes n dest src m

-- `rt_memcmp`; the result is an `rt_int32_t` by its bit pattern.
unfoldable pub memcmp : ℕ → ℕ → ℕ → Bytes → ℕ
memcmp cs ct zero m = 0
memcmp cs ct (suc count) m =
    if m cs == m ct then memcmp (cs + 1) (ct + 1) count m else (m cs + 2 ^ 32 - m ct) % 2 ^ 32
