-- ===== src/Timer.antt =====
-- src/timer.c: the hard timers, on the one list that RT_TIMER_SKIP_LIST_LEVEL leaves.
pub mod Order
pub mod Start
pub mod Stop
use Prim.Native.Nat.{bit_and, bit_or}
use rtthread_nano_to_riscv.Prelude.{
  ℕ, zero, suc, ◌+◌, ◌-◌, ◌%◌, ◌^◌, Bool, true, false, not, Option, none, some, ◌==◌, ltb,
  if◌then◌else◌, ite,
}
use rtthread_nano_to_riscv.Service.Node.{Node, timers, row, TimerId, node_eq}
use rtthread_nano_to_riscv.Service.Links.{insert_after, list_remove, list_isempty, list_init}
use rtthread_nano_to_riscv.Kernel.{
  Kernel, M, pure, fault, ◌>>=◌, ◌>>◌, get, modify, rt_assert, set_links, set_flag,
  set_timeout_tick, set_timer_tick, interrupt_disable, interrupt_enable, Err, eok, error,
}

-- RT_TICK_MAX, and RT_TICK_MAX / 2
abbrev pub tick_max : ℕ
tick_max = 0xffffffff

abbrev pub half_tick_max : ℕ
half_tick_max = 0x7fffffff

-- RT_TIMER_FLAG_ACTIVATED and RT_TIMER_FLAG_PERIODIC, and each cleared from an `rt_uint8_t`
abbrev pub flag_activated : ℕ
flag_activated = 1

abbrev pub flag_periodic : ℕ
flag_periodic = 2

abbrev pub not_activated : ℕ
not_activated = 0xfe

abbrev pub not_periodic : ℕ
not_periodic = 0xfd

-- `a - b` of two `rt_tick_t`
unfoldable pub tick_sub : ℕ → ℕ → ℕ
tick_sub a b = (a + 2 ^ 32 - b) % 2 ^ 32

-- `rt_list_entry(node, struct rt_timer, row[0])`, a fault at a node that is in no timer
unfoldable pub timer_entry : Node → Option TimerId
timer_entry (row t) = some t
timer_entry _ = none

-- `_rt_timer_init`
unfoldable pub timer_setup : TimerId → ℕ → ℕ → M (Unit {0})
timer_setup t time flag = do
  modify (set_flag t (bit_and flag not_activated))
  modify (set_timeout_tick t 0)
  modify (set_timer_tick t time)
  modify (set_links (list_init (row t)))

unfoldable pub next_timeout : Kernel → Option ℕ
unfolding timer_entry
next_timeout k =
    if list_isempty timers k.links
    then some tick_max
    else elim (timer_entry (k.links.next timers)) [
      | none ↦ none
      | some t ↦ some (k.timer t).timeout_tick
    ]

-- `_rt_timer_remove`
unfoldable pub timer_remove : TimerId → M (Unit {0})
timer_remove t = modify (set_links (list_remove (row t)))

-- Whether the loop of `rt_timer_start` goes past a timer due at `other`, for a new one due at `due`.
unfoldable pub goes_past : ℕ → ℕ → Bool
unfolding tick_sub
goes_past other due =
    if tick_sub other due == 0 then true else not (ltb (tick_sub other due) half_tick_max)

-- The loop over `row_head`, on fuel: the node to insert behind. `none` means that the fuel ran out
-- or that a node is in no timer.
unfoldable pub find_row : ℕ → ℕ → Node → Kernel → Option Node
unfolding timer_entry goes_past
find_row zero due head k = none
find_row (suc fuel) due head k =
    let rest = find_row fuel due (k.links.next head) k in
    ite (node_eq head (k.links.prev timers)) (some head) (elim (timer_entry (k.links.next head)) [
      | none ↦ none
      | some t ↦ if goes_past (k.timer t).timeout_tick due then rest else some head
    ])

-- The insertion of `rt_timer_start` behind the node that the walk found.
unfoldable pub insert_behind : TimerId → Option Node → M (Unit {0})
insert_behind t none = fault
insert_behind t (some head) = do
  modify (λ k. record k { random_nr = (k.random_nr + 1) % 2 ^ 32 })
  modify (set_links (insert_after head (row t)))

unfoldable pub insert_timer : ℕ → TimerId → M (Unit {0})
unfolding insert_behind
insert_timer fuel t = do k ← get; insert_behind t (find_row fuel (k.timer t).timeout_tick timers k)

unfoldable pub timer_start : ℕ → TimerId → M Err
unfolding timer_remove
timer_start fuel t = do
  level ← interrupt_disable
  timer_remove t
  k ← get
  modify (set_flag t (bit_and (k.timer t).flag not_activated))
  interrupt_enable level
  k ← get
  rt_assert (ltb (k.timer t).init_tick half_tick_max)
  modify (set_timeout_tick t ((k.tick + (k.timer t).init_tick) % 2 ^ 32))
  level ← interrupt_disable
  insert_timer fuel t
  k ← get
  modify (set_flag t (bit_or (k.timer t).flag flag_activated))
  interrupt_enable level
  pure eok

unfoldable pub timer_stop : TimerId → M Err
unfolding timer_remove
timer_stop t = do
  k ← get
  if bit_and (k.timer t).flag flag_activated == 0 then pure error else (do
    level ← interrupt_disable
    timer_remove t
    interrupt_enable level
    k ← get
    modify (set_flag t (bit_and (k.timer t).flag not_activated))
    pure eok)

-- The commands of `rt_timer_control`, with what `arg` points to.
pub data TimerCmd : Type 0 where
  get_time set_oneshot set_periodic : TimerCmd
  set_time : ℕ → TimerCmd
  other : ℕ → TimerCmd

-- The option is what is written through `arg`.
unfoldable pub timer_control : TimerId → TimerCmd → M (Err × Option ℕ)
timer_control t get_time = do k ← get; pure (eok, some (k.timer t).init_tick)
timer_control t (set_time ticks) = do modify (set_timer_tick t ticks); pure (eok, none)
timer_control t set_oneshot = do
  k ← get
  modify (set_flag t (bit_and (k.timer t).flag not_periodic))
  pure (eok, none)
timer_control t set_periodic = do
  k ← get
  modify (set_flag t (bit_or (k.timer t).flag flag_periodic))
  pure (eok, none)
timer_control t (other cmd) = pure (eok, none)
