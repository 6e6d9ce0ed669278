-- ===== src/Kservice/Format/Stays.antt =====
-- `rt_vsnprintf` of src/kservice.c as a whole: its end, and the bytes that it writes.
use mathlib.Core.Option
use rtthread_nano_to_riscv.Prelude.{ℕ, ◌^◌, ◌<◌, ◌≤◌, ◌≡◌, ◌≢◌, ◌==◌, if◌then◌else◌, Option, some}
use rtthread_nano_to_riscv.Kservice.Memory.{Bytes}
use rtthread_nano_to_riscv.Kservice.Print.{Out}
use rtthread_nano_to_riscv.Kservice.Format.{format_step}
use rtthread_nano_to_riscv.Kservice.Format.Ends.{IsText}

-- every argument is a word, and taken as a string it ends outside of the buffer
abbrev pub AreArgs : ℕ → ℕ → ℕ → Bytes → ℕ → (ℕ → ℕ) → Type 0
AreArgs fuel buf end m null_text args =
    (i : ℕ) → (args i < 2 ^ 32) × IsText fuel buf end m (if args i == 0 then null_text else args i)

-- The main loop goes from one state, the place in the format, the number of arguments read and the text,
-- to another.
pub data Reaches (fuel null_text end : ℕ) (args : ℕ → ℕ) : ℕ × ℕ × Out → ℕ × ℕ × Out → Type 0 where
  here : {s : ℕ × ℕ × Out} → Reaches fuel null_text end args s s
  turn :
      {s r s' : ℕ × ℕ × Out}
      → s.2.bytes s.0 ≢ 0
      → format_step fuel null_text end args s.0 s.1 s.2 ≡ some r
      → Reaches fuel null_text end args r s'
      → Reaches fuel null_text end args s s'

-- The main loop reaches a state whose text goes up to the end of the address space.
abbrev pub Wraps : ℕ → ℕ → ℕ → (ℕ → ℕ) → ℕ × ℕ × Out → Type 0
Wraps fuel null_text end args s =
    (s' : ℕ × ℕ × Out) × Reaches fuel null_text end args s s' × (2 ^ 32 ≤ s'.2.at)
