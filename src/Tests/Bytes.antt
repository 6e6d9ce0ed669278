-- ===== src/Tests/Bytes.antt =====
-- Memory routines at concrete inputs.
use rtthread_nano_to_riscv.Prelude.{
  ◌+◌, ◌-◌, ◌%◌, ◌^◌, ◌≡◌, ◌&&◌, leb, ltb, if◌then◌else◌, inr, arith,
}
use rtthread_nano_to_riscv.Kservice.Memory.{Bytes, memset, memcpy}
use rtthread_nano_to_riscv.Kservice.Memory.Filling.{memset-filled}
use rtthread_nano_to_riscv.Kservice.Memory.Copying.{memcpy-copied}

-- every byte holds the end of its address
abbrev ramp : Bytes
ramp a = a % 2 ^ 8

memset-filled_example :
    memset 100 0x141 23 ramp 119
    ≡ (if leb 100 119 && ltb 119 (100 + 23) then 0x141 % 2 ^ 8 else ramp 119)
memset-filled_example = memset-filled 100 0x141 23 ramp 119

memcpy-copied_example :
    memcpy 200 100 37 ramp 236
    ≡ (if leb 200 236 && ltb 236 (200 + 37) then ramp (100 + (236 - 200)) else ramp 236)
memcpy-copied_example = memcpy-copied 200 100 37 ramp (inr (omega arith)) 236
