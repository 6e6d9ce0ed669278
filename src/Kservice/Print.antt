-- ===== src/Kservice/Print.antt =====
-- The formatted output of src/kservice.c, with RT_PRINTF_PRECISION and without RT_PRINTF_LONGLONG and
-- RT_PRINTF_SPECIAL. The addresses that are read do not wrap; `buf + size` and the pointer that is
-- written through do.
pub mod Digits
pub mod Bounds
use Prim.Native.Nat.{bit_and, bit_or}
use rtthread_nano_to_riscv.Prelude.{
  ℕ, zero, suc, ◌+◌, ◌-◌, ◌*◌, ◌/◌, ◌%◌, ◌^◌, Bool, true, false, not, Option, none, some, List, [],
  ◌∷◌, ◌&&◌, ◌||◌, ◌==◌, leb, ltb, if◌then◌else◌, length,
}
use mathlib.Core.Option
use rtthread_nano_to_riscv.Kservice.Memory.{Bytes, put}
use rtthread_nano_to_riscv.Kservice.Strings.{strlen}

-- ZEROPAD, SIGN, PLUS, SPACE, LEFT, SPECIAL and LARGE
abbrev pub zeropad : ℕ
zeropad = 1

abbrev pub sign : ℕ
sign = 2

abbrev pub plus : ℕ
plus = 4

abbrev pub space : ℕ
space = 8

abbrev pub left : ℕ
left = 16

abbrev pub special : ℕ
special = 32

abbrev pub large : ℕ
large = 64

abbrev pub has : ℕ → ℕ → Bool
has type flag = not (bit_and type flag == 0)

-- `isdigit`
abbrev pub isdigit : ℕ → Bool
isdigit c = leb 48 c && leb c 57

-- `divide`: the remainder, and what `*n` becomes
unfoldable pub divide : ℕ → ℕ → ℕ × ℕ
divide n base = if base == 10 then (n % 10, n / 10) else (n % 16, n / 16)

-- The memory, and `buf` or `str`: the number `at` counts on past the end of the address space, and the
-- pointer is what is left of it modulo 2 ^ 32.
pub record Out : Type 0 where
  pub at : ℕ
  pub bytes : Bytes

-- `if (buf < end) *buf = c; ++ buf;`
unfoldable pub emit : ℕ → ℕ → Out → Out
emit end c o = record {
  at = o.at + 1;
  bytes = if ltb (o.at % 2 ^ 32) end then put (o.at % 2 ^ 32) c o.bytes else o.bytes;
}

unfoldable pub emit_times : ℕ → ℕ → ℕ → Out → Out
unfolding emit
emit_times end c zero o = o
emit_times end c (suc n) o = emit_times end c n (emit end c o)

unfoldable pub emit_all : ℕ → List ℕ → Out → Out
unfolding emit
emit_all end [] o = o
emit_all end (c ∷ cs) o = emit_all end cs (emit end c o)

-- `small_digits[d]` and `large_digits[d]`
unfoldable pub digit : Bool → ℕ → ℕ
digit upper d = if ltb d 10 then 48 + d else (if upper then 55 + d else 87 + d)

-- The loop that fills `tmp`, the last digit first, on fuel; `tmp` is a list with `tmp[i - 1]` in front.
unfoldable pub digits_loop : ℕ → Bool → ℕ → ℕ → List ℕ → Option (List ℕ)
unfolding divide digit
digits_loop zero upper base num tmp = if num == 0 then some tmp else none
digits_loop (suc fuel) upper base num tmp =
    let d = divide num base in
    let rest = digits_loop fuel upper base d.1 (digit upper d.0 ∷ tmp) in
    if num == 0 then some tmp else rest

-- An `int` by its bit pattern, or 0 if it is negative. A count that is only lowered, and compared
-- with 0, is kept by its value above 0.
abbrev pub above_zero : ℕ → ℕ
above_zero n = if ltb n (2 ^ 31) then n else 0

-- output under a condition
unfoldable pub pad_when : Bool → ℕ → ℕ → ℕ → Out → Out
unfolding emit_times
pad_when b end c n o = if b then emit_times end c n o else o

unfoldable pub mark_when : Bool → ℕ → ℕ → Out → Out
unfolding emit
mark_when b end mark o = if b then emit end mark o else o

unfoldable pub text_when : Bool → ℕ → List ℕ → Out → Out
unfolding emit_all
text_when b end tmp o = if b then emit_all end tmp o else o

-- the padding and the sign in front, more padding, the zeros, the digits and the padding behind
unfoldable pub print_parts : ℕ → Bool → Bool → Bool → Bool → ℕ → ℕ → ℕ → ℕ → ℕ → List ℕ → Out → Out
unfolding pad_when mark_when text_when emit_times
print_parts end in_front signed at_left shown size1 mark c size3 zeros tmp o =
    pad_when at_left end 32 size3 (
      text_when shown end tmp (
        emit_times end 48 zeros (
          pad_when (not at_left) end c size3
            (mark_when signed end mark (pad_when in_front end 32 size1 o)))))

-- The end of `print_number`, from the two ifs over `size` on.
unfoldable pub print_digits : ℕ → ℕ → ℕ → ℕ → ℕ → List ℕ → Out → Out
print_digits end s precision type mark tmp o =
    let i = length tmp in
    let wide = if ltb (above_zero precision) i then i else precision in
    let size0 = above_zero s - wide in
    let in_front = not (has type zeropad || has type left) in
    let size1 = if in_front && not (mark == 0) then size0 - 1 else size0 in
    let size2 = if in_front then 0 else size1 in
    let size3 = if mark == 0 then size2 else size2 - 1 in
    print_parts end in_front (not (mark == 0)) (has type left) (not (precision == 0)) size1 mark
      (if has type zeropad then 48 else 32) size3 (wide - i) tmp o

-- the sign, 0 for none
unfoldable pub sign_mark : ℕ → ℕ → ℕ
sign_mark type num =
    if has type sign
    then (if leb (2 ^ 31) num
        then 45
        else (if has type plus then 43 else (if has type space then 32 else 0)))
    else 0

-- the digits of a `long` by its bit pattern; `tmp` has room for 16
unfoldable pub number_digits : ℕ → ℕ → ℕ → Option (List ℕ)
number_digits base type num =
    let n = if has type sign && leb (2 ^ 31) num then 2 ^ 32 - num else num in
    if n == 0 then some (48 ∷ []) else digits_loop 16 (has type large) base n []

-- `none` means that `tmp` overflows.
unfoldable pub print_number : ℕ → ℕ → ℕ → ℕ → ℕ → ℕ → Out → Option Out
unfolding sign_mark
print_number end num base s precision type o =
    let type1 = if has type left then bit_and type 0xfe else type in
    Option.map (λ tmp. print_digits end s precision type1 (sign_mark type1 num) tmp o)
      (number_digits base type1 num)
