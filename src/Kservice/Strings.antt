-- ===== src/Kservice/Strings.antt =====
-- The string routines of src/kservice.c on a memory of bytes. A `char` is unsigned on RISC-V. Loops up
-- to the end of a string run on fuel, and give `none` when it runs out.
use rtthread_nano_to_riscv.Prelude.{
  ℕ, zero, suc, ◌+◌, ◌-◌, ◌%◌, ◌^◌, not, Option, none, some, ◌&&◌, ◌||◌, ◌==◌, leb, ltb,
  if◌then◌else◌,
}
use mathlib.Core.Option
use rtthread_nano_to_riscv.Kservice.Memory.{Bytes, put, memcmp}

-- `rt_strlen` less the `sc - s` characters that it went past
unfoldable pub strlen : ℕ → ℕ → Bytes → Option ℕ
strlen zero s m = none
strlen (suc fuel) s m =
    let rest = strlen fuel (s + 1) m in if m s == 0 then some 0 else Option.map suc rest

-- `rt_strnlen`, `left` characters in front of `s + maxlen`
unfoldable pub strnlen : ℕ → ℕ → Bytes → ℕ
strnlen s zero m = 0
strnlen s (suc left) m = let rest = strnlen (s + 1) left m in if m s == 0 then 0 else suc rest

-- The differences of characters are `int`s by their bit patterns.
unfoldable pub char_sub : ℕ → ℕ → ℕ
char_sub a b = (a + 2 ^ 32 - b) % 2 ^ 32

unfoldable pub strcmp : ℕ → ℕ → ℕ → Bytes → Option ℕ
unfolding char_sub
strcmp zero cs ct m = none
strcmp (suc fuel) cs ct m =
    let rest = strcmp fuel (cs + 1) (ct + 1) m in
    if not (m cs == 0) && m cs == m ct then rest else some (char_sub (m cs) (m ct))

-- the difference in a `signed char`, as an `rt_int32_t`
unfoldable pub narrow : ℕ → ℕ
narrow d = if ltb (d % 2 ^ 8) (2 ^ 7) then d % 2 ^ 8 else 2 ^ 32 - 2 ^ 8 + d % 2 ^ 8

unfoldable pub strncmp : ℕ → ℕ → ℕ → Bytes → ℕ
unfolding char_sub narrow
strncmp cs ct zero m = 0
strncmp cs ct (suc count) m =
    let res = narrow (char_sub (m cs) (m ct)) in
    let rest = strncmp (cs + 1) (ct + 1) count m in
    if not (res == 0) || m cs == 0 then res else rest

-- the case folding of `rt_strcasecmp`
unfoldable pub lower : ℕ → ℕ
lower c = if leb 65 c && leb c 90 then c + 32 else c

unfoldable pub strcasecmp : ℕ → ℕ → ℕ → Bytes → Option ℕ
unfolding char_sub lower
strcasecmp zero a b m = none
strcasecmp (suc fuel) a b m =
    let ca = lower (m a) in
    let cb = lower (m b) in
    let rest = strcasecmp fuel (a + 1) (b + 1) m in
    if ca == cb && not (ca == 0) then rest else some (char_sub ca cb)

-- the loop of `rt_strncpy` that pads with zeros
unfoldable pub pad_zeros : ℕ → ℕ → Bytes → Bytes
pad_zeros zero d m = m
pad_zeros (suc n) d m = pad_zeros n (d + 1) (put d 0 m)

unfoldable pub strncpy : ℕ → ℕ → ℕ → Bytes → Bytes
unfolding pad_zeros
strncpy d s zero m = m
strncpy d s (suc n) m =
    let rest = strncpy (d + 1) (s + 1) n (put d (m s) m) in
    if m s == 0 then pad_zeros n (d + 1) (put d (m s) m) else rest

-- The loop of `rt_strstr`, with `l1 - l2 + 1` positions left: where the string is found.
unfoldable pub strstr_loop : ℕ → ℕ → ℕ → ℕ → Bytes → Option ℕ
unfolding memcmp
strstr_loop zero s1 s2 l2 m = none
strstr_loop (suc left) s1 s2 l2 m =
    let rest = strstr_loop left (s1 + 1) s2 l2 m in if memcmp s1 s2 l2 m == 0 then some s1 else rest

-- `rt_strstr` from its second `rt_strlen` on
unfoldable pub strstr_from : ℕ → ℕ → ℕ → Bytes → Option ℕ → Option (Option ℕ)
unfolding strlen strstr_loop
strstr_from fuel s1 s2 m none = none
strstr_from fuel s1 s2 m (some zero) = some (some s1)
strstr_from fuel s1 s2 m (some (suc n)) =
    Option.map (λ l1. strstr_loop (l1 - n) s1 s2 (suc n) m) (strlen fuel s1 m)

-- The outer `none` means that the fuel ran out, the inner one is RT_NULL.
unfoldable pub strstr : ℕ → ℕ → ℕ → Bytes → Option (Option ℕ)
unfolding strlen strstr_from
strstr fuel s1 s2 m = strstr_from fuel s1 s2 m (strlen fuel s2 m)
