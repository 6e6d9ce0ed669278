-- ===== src/Kservice/Format.antt =====
-- `rt_vsnprintf` of src/kservice.c. Its arguments are the words that `va_arg` reads, one after the
-- other; the format is read from the memory that the text is written to.
pub mod Bounds
pub mod Reading
pub mod Ends
pub mod Stays
use Prim.Native.Nat.{bit_or}
use rtthread_nano_to_riscv.Prelude.{
  ℕ, zero, suc, ◌+◌, ◌-◌, ◌*◌, ◌%◌, ◌^◌, Bool, true, false, not, Option, none, some, List, [], ◌∷◌,
  ◌&&◌, ◌||◌, ◌==◌, leb, ltb, if◌then◌else◌,
}
use mathlib.Core.Option
use rtthread_nano_to_riscv.Kservice.Memory.{Bytes, put}
use rtthread_nano_to_riscv.Kservice.Strings.{strlen}
use rtthread_nano_to_riscv.Kservice.Print.{
  zeropad, sign, plus, space, left, special, large, has, isdigit, Out, emit, pad_when, above_zero,
  print_number,
}

-- the local variables of `rt_vsnprintf` between two characters of a directive
pub record Directive : Type 0 where
  pub fmt : ℕ
  -- how many arguments were read
  pub arg : ℕ
  pub flags : ℕ
  pub width : ℕ
  pub precision : ℕ
  pub qualifier : ℕ

-- `skip_atoi`, on fuel: the number, and the address behind it
unfoldable pub skip_atoi : ℕ → ℕ → ℕ → Bytes → Option (ℕ × ℕ)
skip_atoi zero i s m = none
skip_atoi (suc fuel) i s m =
    let rest = skip_atoi fuel ((i * 10 + m s - 48) % 2 ^ 32) (s + 1) m in
    if isdigit (m s) then rest else some (i, s)

-- the flag that a character stands for, 0 for none
unfoldable pub flag_of : ℕ → ℕ
flag_of c =
    if c == 45
    then left
    else (if c == 43
        then plus
        else (if c == 32
            then space
            else (if c == 35 then special else (if c == 48 then zeropad else 0))))

-- the loop over the flags, which starts at a `%`, on fuel
unfoldable pub read_flags : ℕ → Bytes → Directive → Option Directive
unfolding flag_of
read_flags zero m d = none
read_flags (suc fuel) m d =
    let flag = flag_of (m (d.fmt + 1)) in
    let rest = read_flags fuel m (record d { fmt = d.fmt + 1; flags = bit_or d.flags flag }) in
    if flag == 0 then some (record d { fmt = d.fmt + 1 }) else rest

-- a width that is an argument
unfoldable pub width_of : ℕ → Directive → Directive
width_of w d =
    let next = record d { fmt = d.fmt + 1; arg = d.arg + 1 } in
    if leb (2 ^ 31) w
    then record next { width = (2 ^ 32 - w) % 2 ^ 32; flags = bit_or d.flags left }
    else record next { width = w }

unfoldable pub read_width : ℕ → (ℕ → ℕ) → Bytes → Directive → Option Directive
unfolding skip_atoi width_of
read_width fuel args m d =
    if isdigit (m d.fmt)
    then Option.map (λ r. record d { width = r.0; fmt = r.1 }) (skip_atoi fuel 0 d.fmt m)
    else (if m d.fmt == 42 then some (width_of (args d.arg) d) else some d)

-- the precision behind a point
unfoldable pub read_digits : ℕ → (ℕ → ℕ) → Bytes → Directive → Option Directive
unfolding skip_atoi
read_digits fuel args m d =
    if isdigit (m d.fmt)
    then Option.map (λ r. record d { precision = above_zero r.0; fmt = r.1 })
        (skip_atoi fuel 0 d.fmt m)
    else (if m d.fmt == 42
        then some
            (record d { precision = above_zero (args d.arg); fmt = d.fmt + 1; arg = d.arg + 1 })
        else some (record d { precision = 0 }))

unfoldable pub read_precision : ℕ → (ℕ → ℕ) → Bytes → Directive → Option Directive
unfolding read_digits
read_precision fuel args m d =
    if m d.fmt == 46 then read_digits fuel args m (record d { fmt = d.fmt + 1 }) else some d

unfoldable pub read_qualifier : Bytes → Directive → Directive
read_qualifier m d =
    if m d.fmt == 104 || m d.fmt == 108
    then record d { qualifier = m d.fmt; fmt = d.fmt + 1 }
    else d

-- the case 'c'
unfoldable pub print_char : ℕ → ℕ → Directive → Out → Out
print_char end c d o =
    let pad = above_zero d.width - 1 in
    let o1 = pad_when (not (has d.flags left)) end 32 pad o in
    pad_when (has d.flags left) end 32 pad (emit end (c % 2 ^ 8) o1)

-- the loop of the case 's'
unfoldable pub emit_string : ℕ → ℕ → ℕ → Out → Out
unfolding emit
emit_string end s zero o = o
emit_string end s (suc n) o = emit_string end (s + 1) n (emit end (o.bytes s) o)

-- the case 's' for a string of `length` characters
unfoldable pub print_string : ℕ → ℕ → ℕ → Directive → Out → Out
print_string end s length d o =
    let p = above_zero d.precision in
    let len = if not (p == 0) && ltb p length then p else length in
    let pad = above_zero d.width - len in
    let o1 = pad_when (not (has d.flags left)) end 32 pad o in
    pad_when (has d.flags left) end 32 pad (emit_string end s len o1)

-- `num` for an argument
unfoldable pub narrow_num : ℕ → ℕ → ℕ → ℕ
narrow_num flags qualifier v =
    if qualifier == 104
    then (if has flags sign && leb (2 ^ 15) (v % 2 ^ 16)
        then v % 2 ^ 16 + 2 ^ 32 - 2 ^ 16
        else v % 2 ^ 16)
    else v % 2 ^ 32

-- the end of an integer directive
unfoldable pub print_integer : ℕ → ℕ → ℕ → (ℕ → ℕ) → Directive → Out → Option (Directive × Out)
print_integer end base flag args d o =
    let flags = bit_or d.flags flag in
    Option.map (λ o'. (record d { fmt = d.fmt + 1; arg = d.arg + 1 }, o'))
      (print_number end (narrow_num flags d.qualifier (args d.arg)) base d.width d.precision flags
        o)

-- the case 'p'
unfoldable pub print_pointer : ℕ → (ℕ → ℕ) → Directive → Out → Option (Directive × Out)
print_pointer end args d o =
    let unset = d.width == 2 ^ 32 - 1 in
    Option.map (λ o'. (record d { fmt = d.fmt + 1; arg = d.arg + 1 }, o'))
      (print_number end (args d.arg) 16 (if unset then 8 else d.width) d.precision
        (if unset then bit_or d.flags zeropad else d.flags) o)

-- a character that is no conversion
unfoldable pub print_other : ℕ → Directive → Out → Directive × Out
unfolding emit
print_other end d o =
    let o1 = emit end 37 o in
    if o1.bytes d.fmt == 0
    then (d, o1)
    else (record d { fmt = d.fmt + 1 }, emit end (o1.bytes d.fmt) o1)

-- The `switch`, with the address of the string "(NULL)" and fuel for `rt_strlen`; the directive that
-- it leaves has the address of what comes next.
unfoldable pub convert : ℕ → ℕ → ℕ → (ℕ → ℕ) → Directive → Out → Option (Directive × Out)
convert fuel null_text end args d o =
    let c = o.bytes d.fmt in
    let next = record d { fmt = d.fmt + 1; arg = d.arg + 1 } in
    if c == 99
    then some (next, print_char end (args d.arg) d o)
    else (if c == 115
        then (let s = if args d.arg == 0 then null_text else args d.arg in
            Option.map (λ len. (next, print_string end s len d o)) (strlen fuel s o.bytes))
        else (if c == 112
            then print_pointer end args d o
            else (if c == 37
                then some (record d { fmt = d.fmt + 1 }, emit end 37 o)
                else (if c == 111
                    then print_integer end 8 0 args d o
                    else (if c == 88
                        then print_integer end 16 large args d o
                        else (if c == 120
                            then print_integer end 16 0 args d o
                            else (if c == 100 || c == 105
                                then print_integer end 10 sign args d o
                                else (if c == 117
                                    then print_integer end 10 0 args d o
                                    else some (print_other end d o)))))))))

abbrev pub go_on :
    Option Directive → (Directive → Option (Directive × Out)) → Option (Directive × Out)
go_on none f = none
go_on (some d) f = f d

-- the parts of a directive from its `%` on
unfoldable pub directive : ℕ → ℕ → ℕ → (ℕ → ℕ) → ℕ → ℕ → Out → Option (Directive × Out)
directive fuel null_text end args fmt arg o =
    let start : Directive = record {
      fmt = fmt;
      arg = arg;
      flags = 0;
      width = 2 ^ 32 - 1;
      precision = 2 ^ 32 - 1;
      qualifier = 0;
    } in
    go_on (read_flags fuel o.bytes start) (λ d1. go_on (read_width fuel args o.bytes d1) (λ d2.
      go_on (read_precision fuel args o.bytes d2)
        (λ d3. convert fuel null_text end args (read_qualifier o.bytes d3) o)))

-- one turn of the main loop for a character that is not 0
unfoldable pub format_step : ℕ → ℕ → ℕ → (ℕ → ℕ) → ℕ → ℕ → Out → Option (ℕ × ℕ × Out)
format_step fuel null_text end args fmt arg o =
    if o.bytes fmt == 37
    then Option.map (λ r. (r.0.fmt, r.0.arg, r.1)) (directive fuel null_text end args fmt arg o)
    else some (fmt + 1, arg, emit end (o.bytes fmt) o)

-- the main loop, on fuel
unfoldable pub format_loop : ℕ → ℕ → ℕ → ℕ → (ℕ → ℕ) → ℕ → ℕ → Out → Option Out
format_loop zero fuel null_text end args fmt arg o = none
format_loop (suc turns) fuel null_text end args fmt arg o =
    let rest : Option Out = elim (format_step fuel null_text end args fmt arg o) [
      | none ↦ none
      | some r ↦ format_loop turns fuel null_text end args r.0 r.1 r.2
    ] in
    if o.bytes fmt == 0 then some o else rest

-- the terminating null byte
unfoldable pub terminate : ℕ → ℕ → Out → Bytes
terminate end size o =
    if size == 0
    then o.bytes
    else (if ltb (o.at % 2 ^ 32) end
        then put (o.at % 2 ^ 32) 0 o.bytes
        else put (end - 1) 0 o.bytes)

-- The pattern of the count, `str - buf`, and the memory after the call. `end` is kept from wrapping
-- round.
unfoldable pub vsnprintf : ℕ → ℕ → ℕ → ℕ → ℕ → (ℕ → ℕ) → Bytes → Option (ℕ × Bytes)
vsnprintf fuel null_text buf size fmt args m =
    let sum = (buf + size) % 2 ^ 32 in
    let end = if ltb sum buf then 2 ^ 32 - 1 else sum in
    let size = if ltb sum buf then 2 ^ 32 - 1 - buf else size in
    Option.map (λ o. ((o.at % 2 ^ 32 + 2 ^ 32 - buf) % 2 ^ 32, terminate end size o))
      (format_loop fuel fuel null_text end args fmt 0 (record { at = buf; bytes = m }))

-- `rt_vsprintf`
unfoldable pub vsprintf : ℕ → ℕ → ℕ → ℕ → (ℕ → ℕ) → Bytes → Option (ℕ × Bytes)
unfolding vsnprintf
vsprintf fuel null_text buf fmt args m = vsnprintf fuel null_text buf (2 ^ 32 - 1) fmt args m
