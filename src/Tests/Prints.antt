-- ===== src/Tests/Prints.antt =====
-- Formatted output at concrete inputs.
use rtthread_nano_to_riscv.Prelude.{
  ℕ, ◌-◌, ◌^◌, ◌≤◌, ◌≡◌, ◌==◌, if◌then◌else◌, List, length, some, arith,
}
use rtthread_nano_to_riscv.Kservice.Memory.{Bytes}
use rtthread_nano_to_riscv.Kservice.Print.{number_digits, sign}
use rtthread_nano_to_riscv.Kservice.Print.Digits.{decimal, magnitude, number_digits-decimal}

-- the number -15
number_digits-decimal_example :
    (xs : List ℕ) × (number_digits 10 sign (2 ^ 32 - 15) ≡ some xs)
    × (decimal 0 xs ≡ magnitude sign (2 ^ 32 - 15))
    × (length xs ≤ 16)
number_digits-decimal_example = number_digits-decimal sign (2 ^ 32 - 15) (omega arith)

-- the format "%d" at 100, and zeros
abbrev memory : Bytes
memory a = if a == 100 then 37 else (if a == 101 then 100 else 0)
