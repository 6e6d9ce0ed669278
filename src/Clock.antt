-- ===== src/Clock.antt =====
-- src/clock.c and src/irq.c, with `rt_timer_check` of src/timer.c that the tick runs.
pub mod Tick
pub mod Due
pub mod Rearm
pub mod Check
use Prim.Native.Nat.{bit_and}
use rtthread_nano_to_riscv.Prelude.{
  ℕ, zero, suc, ◌+◌, ◌-◌, ◌*◌, ◌/◌, ◌%◌, ◌^◌, true, false, not, Option, none, some, ◌==◌, ltb, leb,
  ◌&&◌, if◌then◌else◌,
}
use rtthread_nano_to_riscv.Service.Node.{timers, TimerId}
use rtthread_nano_to_riscv.Service.Links.{list_isempty}
use rtthread_nano_to_riscv.Kernel.{
  Kernel, M, pure, fault, ◌>>=◌, ◌>>◌, get, modify, set_flag, set_remaining_tick, interrupt_disable,
  interrupt_enable,
}
use rtthread_nano_to_riscv.Timer.{
  tick_sub, half_tick_max, timer_entry, timer_remove, timer_start, flag_periodic, flag_activated,
  not_activated,
}
use rtthread_nano_to_riscv.Thread.{self, thread_yield}

unfoldable pub tick_get : M ℕ
tick_get k = some (k.tick, k)

unfoldable pub tick_set : ℕ → M (Unit {0})
tick_set tick = do
  level ← interrupt_disable
  modify (λ k. record k { tick = tick })
  interrupt_enable level

-- `rt_interrupt_enter`, `rt_interrupt_leave` and `rt_interrupt_get_nest`, on an `rt_uint8_t`
unfoldable pub interrupt_enter : M (Unit {0})
interrupt_enter = do
  level ← interrupt_disable
  modify (λ k. record k { interrupt_nest = (k.interrupt_nest + 1) % 2 ^ 8 })
  interrupt_enable level

unfoldable pub interrupt_leave : M (Unit {0})
interrupt_leave = do
  level ← interrupt_disable
  modify (λ k. record k { interrupt_nest = (k.interrupt_nest + 2 ^ 8 - 1) % 2 ^ 8 })
  interrupt_enable level

unfoldable pub get_nest : M ℕ
get_nest k = some (k.interrupt_nest, k)

-- RT_TICK_PER_SECOND
abbrev pub tick_per_second : ℕ
tick_per_second = 100

-- `rt_tick_from_millisecond` of an `rt_int32_t`, given by its bit pattern
unfoldable pub tick_from_millisecond : ℕ → ℕ
tick_from_millisecond ms =
    if leb (2 ^ 31) ms
    then 2 ^ 32 - 1
    else tick_per_second * (ms / 1000) + (tick_per_second * (ms % 1000) + 999) / 1000

-- `rt_tick_increase` down to its call of `rt_timer_check`
unfoldable pub time_slice : M (Unit {0})
unfolding self
time_slice = do
  modify (λ k. record k { tick = (k.tick + 1) % 2 ^ 32 })
  t ← self
  k ← get
  modify (set_remaining_tick t (((k.thread t).remaining_tick + 2 ^ 32 - 1) % 2 ^ 32))
  k ← get
  if (k.thread t).remaining_tick == 0
      then (do modify (set_remaining_tick t (k.thread t).init_tick); thread_yield; pure tt)
      else pure tt

-- the choice after the callback of `rt_timer_check`, with the fuel of `rt_timer_start`
unfoldable pub rearm : ℕ → TimerId → M (Unit {0})
rearm fuel t = do
  k ← get
  modify (set_flag t (bit_and (k.timer t).flag not_activated))
  if not (bit_and (k.timer t).flag flag_periodic == 0)
        && not (bit_and (k.timer t).flag flag_activated == 0)
      then (do timer_start fuel t; pure tt)
      else pure tt

-- the timer in front of the list, `none` when the list is empty, a fault at a node in no timer
unfoldable pub first_timer : M (Option TimerId)
unfolding timer_entry
first_timer k =
    if list_isempty timers k.links
    then some (none, k)
    else elim (timer_entry (k.links.next timers)) [ none ↦ none | some t ↦ some (some t, k) ]

-- One turn of the loop of `rt_timer_check`, with the callbacks `timeout_func` and the rest of the loop.
unfoldable pub fire :
    (TimerId → M (Unit {0})) → ℕ → (ℕ → M (Unit {0})) → ℕ → Option TimerId → M (Unit {0})
unfolding tick_sub timer_remove rearm tick_get
fire timeout_func fuel rest now none = pure tt
fire timeout_func fuel rest now (some t) = do
  k ← get
  if ltb (tick_sub now (k.timer t).timeout_tick) half_tick_max
      then (do timer_remove t; timeout_func t; now ← tick_get; rearm fuel t; rest now)
      else pure tt

-- The loop, on fuel for its turns and fuel for `rt_timer_start`. A periodic timer that is due again at
-- once runs in every turn.
unfoldable pub check_loop : (TimerId → M (Unit {0})) → ℕ → ℕ → ℕ → M (Unit {0})
unfolding first_timer fire
check_loop timeout_func fuel zero now = fault
check_loop timeout_func fuel (suc turns) now = do
  first ← first_timer
  fire timeout_func fuel (check_loop timeout_func fuel turns) now first

unfoldable pub timer_check : (TimerId → M (Unit {0})) → ℕ → ℕ → M (Unit {0})
unfolding check_loop tick_get
timer_check timeout_func fuel turns = do
  now ← tick_get
  level ← interrupt_disable
  check_loop timeout_func fuel turns now
  interrupt_enable level

unfoldable pub tick_increase : (TimerId → M (Unit {0})) → ℕ → ℕ → M (Unit {0})
unfolding time_slice timer_check
tick_increase timeout_func fuel turns = do time_slice; timer_check timeout_func fuel turns
