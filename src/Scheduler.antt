-- ===== src/Scheduler.antt =====
-- src/scheduler.c: the ready queues, their bitmap, and the choice of the next thread.
pub mod Queues
pub mod Insert
pub mod Remove
pub mod Choose
pub mod Frame
pub mod Critical
use Prim.Native.Nat.{bit_and, bit_or}
use rtthread_nano_to_riscv.Prelude.{
  ℕ, zero, suc, ◌∷◌, ◌+◌, ◌-◌, ◌%◌, ◌^◌, Bool, true, false, Option, none, some, ◌==◌, ltb, leb,
  ◌||◌, if◌then◌else◌, ite, ℕ_discrete,
}
use rtthread_nano_to_riscv.Kservice.Ffs.{ffs}
use rtthread_nano_to_riscv.Service.Node.{Node, ready, defunct, tlist}
use rtthread_nano_to_riscv.Service.Links.{
  Links, insert_before, list_remove, list_isempty, list_init,
}
use rtthread_nano_to_riscv.Kernel.{
  Kernel, Thread, M, pure, fault, ◌>>=◌, ◌>>◌, get, modify, rt_assert, set_links, set_stat,
  interrupt_disable, interrupt_enable, complement, with_stat, stat_ready, priority_max, Switch,
  context_switch, context_switch_interrupt, context_switch_to,
}

-- `rt_list_entry(node, struct rt_thread, tlist)`, a fault at a node that is in no thread
unfoldable pub thread_entry : Node → M ℕ
thread_entry (tlist t) = pure t
thread_entry _ = fault

-- The index of the highest ready priority: `__rt_ffs(group) - 1` as an `rt_ubase_t`.
unfoldable pub highest_ready : ℕ → ℕ
highest_ready group = (ffs group + 2 ^ 32 - 1) % 2 ^ 32

-- the thread in front of the queue of the highest ready priority, a fault out of the table
unfoldable pub next_thread : ℕ → M ℕ
unfolding thread_entry
next_thread highest = do
  rt_assert (ltb highest priority_max)
  k ← get
  thread_entry (k.links.next (ready highest))

init_queues : ℕ → Links → Links
init_queues zero s = s
init_queues (suc n) s = list_init (ready n) (init_queues n s)

unfoldable pub scheduler_init : M (Unit {0})
unfolding init_queues
scheduler_init = do
  modify (λ k. record k { lock_nest = 0 })
  modify (set_links (init_queues priority_max))
  modify (λ k. record k { current_priority = priority_max - 1; current = none; ready_group = 0 })
  modify (set_links (list_init defunct))

unfoldable pub scheduler_start : M (Unit {0})
unfolding next_thread highest_ready
scheduler_start = do
  k ← get
  to ← next_thread (highest_ready k.ready_group)
  modify (λ k. record k { current = some to; switches = context_switch_to to ∷ k.switches })

-- The switch from `rt_current_thread`, a fault where that is RT_NULL.
unfoldable pub switch_to : ℕ → Option ℕ → M (Unit {0})
switch_to to none = fault
switch_to to (some from) = do
  modify (λ k. record k { current = some to })
  modify λ k. record k {
    switches =
        (if k.interrupt_nest == 0 then context_switch from to else context_switch_interrupt from to)
        ∷ k.switches;
  }

unfoldable pub is_current : ℕ → Option ℕ → Bool
is_current t none = false
is_current t (some u) = t == u

-- The part of `rt_schedule` under `rt_scheduler_lock_nest == 0`.
unfoldable pub reschedule : M (Unit {0})
unfolding next_thread highest_ready switch_to is_current
reschedule = do
  k ← get
  let highest = highest_ready k.ready_group
  to ← next_thread highest
  if is_current to k.current
      then pure tt
      else (modify (λ k. record k { current_priority = highest % 2 ^ 8 }) >> switch_to to k.current)

unfoldable pub schedule : M (Unit {0})
unfolding reschedule
schedule = do
  level ← interrupt_disable
  k ← get
  if k.lock_nest == 0 then reschedule else pure tt
  interrupt_enable level

unfoldable pub insert_thread : ℕ → M (Unit {0})
unfolding with_stat
insert_thread t = do
  level ← interrupt_disable
  k ← get
  modify (set_stat t (with_stat stat_ready (k.thread t).stat))
  k ← get
  rt_assert (ltb (k.thread t).current_priority priority_max)
  modify (set_links (insert_before (ready (k.thread t).current_priority) (tlist t)))
  modify (λ k. record k { ready_group = bit_or k.ready_group (k.thread t).number_mask })
  interrupt_enable level

unfoldable pub remove_thread : ℕ → M (Unit {0})
remove_thread t = do
  level ← interrupt_disable
  modify (set_links (list_remove (tlist t)))
  k ← get
  rt_assert (ltb (k.thread t).current_priority priority_max)
  if list_isempty (ready (k.thread t).current_priority) k.links
      then modify (λ k. record k {
        ready_group = bit_and k.ready_group (complement (k.thread t).number_mask);
      })
      else pure tt
  interrupt_enable level

-- `++` and `--` of an `rt_int16_t`, and `<= 0`, on its bit pattern
unfoldable pub increment16 : ℕ → ℕ
increment16 n = (n + 1) % 2 ^ 16

unfoldable pub decrement16 : ℕ → ℕ
decrement16 n = (n + 2 ^ 16 - 1) % 2 ^ 16

unfoldable pub le_zero16 : ℕ → Bool
le_zero16 n = n == 0 || leb (2 ^ 15) n

unfoldable pub enter_critical : M (Unit {0})
unfolding increment16
enter_critical = do
  level ← interrupt_disable
  modify (λ k. record k { lock_nest = increment16 k.lock_nest })
  interrupt_enable level

unfoldable pub exit_critical : M (Unit {0})
unfolding schedule decrement16 le_zero16
exit_critical = do
  level ← interrupt_disable
  modify (λ k. record k { lock_nest = decrement16 k.lock_nest })
  k ← get
  if le_zero16 k.lock_nest
      then (do
        modify (λ k. record k { lock_nest = 0 })
        interrupt_enable level
        k ← get
        elim k.current [ none ↦ pure tt | some _ ↦ schedule ])
      else interrupt_enable level

-- the lock level, an `rt_uint16_t`
unfoldable pub critical_level : M ℕ
critical_level = do k ← get; pure k.lock_nest
