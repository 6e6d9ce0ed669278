-- ===== src/Timer/Stop.antt =====
-- `rt_timer_stop` of src/timer.c.
use Prim.Native.Nat.{bit_and}
use rtthread_nano_to_riscv.Prelude.{
  ℕ, ◌≡◌, refl, Bool-cases, inl, inr, ◌==◌, if◌then◌else◌, some, arith, if_pos,
}
use rtthread_nano_to_riscv.Prelude.Bits.{bit_and-clear_zero}
use rtthread_nano_to_riscv.Service.Node.{Node, row, TimerId, timer_eq}
use rtthread_nano_to_riscv.Service.Links.{list_remove}
use rtthread_nano_to_riscv.Service.Pointers.{IsAlone, IsAlone-list_remove}
use rtthread_nano_to_riscv.Kernel.{Kernel, set_flag, eok, error}
use rtthread_nano_to_riscv.Scheduler.Queues.{Queues, IsReady}
use rtthread_nano_to_riscv.Scheduler.Frame.{IsReady-remove_row}
use rtthread_nano_to_riscv.Timer.{timer_stop, not_activated, flag_activated}

-- whether RT_TIMER_FLAG_ACTIVATED is set
abbrev pub flag_of : Kernel → TimerId → ℕ
flag_of k t = bit_and (k.timer t).flag flag_activated

-- the state after the call
abbrev pub stopped : Kernel → TimerId → Kernel
stopped k t = record k {
  links = if flag_of k t == 0 then k.links else list_remove (row t) k.links;
  timer =
      if flag_of k t == 0
      then k.timer
      else (set_flag t (bit_and (k.timer t).flag not_activated) k).timer;
}

-- A timer that is not active is an error and nothing changes; an active one is taken off its list and
-- its flag cleared.
pub timer_stop_lem :
    (k : Kernel) (t : TimerId)
    → timer_stop t k ≡ some ((if flag_of k t == 0 then error else eok), stopped k t)
unfolding timer_stop
timer_stop_lem k t = elim (Bool-cases (flag_of k t == 0)) [ inl e ↦ rw e | inr e ↦ rw e ]

-- Either way it is not active afterwards.
pub flag_of-stopped : (k : Kernel) (t : TimerId) → flag_of (stopped k t) t ≡ 0
flag_of-stopped k t = elim (Bool-cases (flag_of k t == 0)) [
  | inl e ↦ rw e (ground arith)
  | inr e ↦
      rw e
        (rw (if_pos (timer_eq t t) refl) (bit_and-clear_zero (k.timer t).flag not_activated refl))
]

module _ (k : Kernel) (t : TimerId) (q : Queues) (r : IsReady k q) where
  pub stopped-IsReady : IsReady (stopped k t) q
  stopped-IsReady = elim (Bool-cases (flag_of k t == 0)) [
    | inl e ↦ rw e r
    | inr e ↦
        let s = IsReady-remove_row k q r t in
        rw e (record {
          linked = s.linked;
          rings = s.rings;
          bits = s.bits;
          width = s.width;
          queued = s.queued;
        })
  ]

  pub stopped-IsAlone : (m : Node) → IsAlone k.links m → IsAlone (stopped k t).links m
  stopped-IsAlone m al = elim (Bool-cases (flag_of k t == 0)) [
    | inl e ↦ rw e al
    | inr e ↦ rw e (IsAlone-list_remove k.links (row t) r.linked m al)
  ]
