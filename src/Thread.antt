-- ===== src/Thread.antt =====
-- src/thread.c: the states of a thread, and the functions that move it between them.
pub mod Suspend
pub mod Resume
pub mod Yield
pub mod Priority
pub mod Startup
use rtthread_nano_to_riscv.Prelude.{
  ℕ, ◌%◌, ◌^◌, Bool, true, false, not, ◌&&◌, Option, none, some, ◌==◌, if◌then◌else◌, ite,
}
use rtthread_nano_to_riscv.Service.Node.{ready, tlist, thread_timer, node_eq}
use rtthread_nano_to_riscv.Service.Links.{insert_before, list_remove}
use rtthread_nano_to_riscv.Kernel.{
  Kernel, M, pure, fault, ◌>>=◌, ◌>>◌, get, modify, rt_assert, set_links, set_stat, set_priority,
  set_mask, set_error, interrupt_disable, interrupt_enable, stat_of, with_stat, stat_init,
  stat_ready, stat_suspend, Err, eok, error, etimeout,
}
use rtthread_nano_to_riscv.Scheduler.{insert_thread, remove_thread, schedule}
use rtthread_nano_to_riscv.Timer.{timer_start, timer_stop, timer_control, set_time}

-- `1 << priority` as an `rt_uint32_t`
unfoldable pub priority_mask : ℕ → ℕ
priority_mask p = 2 ^ p % 2 ^ 32

-- `rt_thread_self()` where the code goes on to read through it, a fault at RT_NULL
unfoldable pub self : M ℕ
self k = elim k.current [ none ↦ none | some t ↦ some (t, k) ]

unfoldable pub thread_suspend : ℕ → M Err
thread_suspend t = do
  k ← get
  if stat_of (k.thread t).stat == stat_ready
      then (do
        level ← interrupt_disable
        modify (set_stat t (with_stat stat_suspend (k.thread t).stat))
        remove_thread t
        timer_stop (thread_timer t)
        interrupt_enable level
        pure eok)
      else pure error

unfoldable pub thread_resume : ℕ → M Err
thread_resume t = do
  k ← get
  if stat_of (k.thread t).stat == stat_suspend
      then (do
        level ← interrupt_disable
        modify (set_links (list_remove (tlist t)))
        timer_stop (thread_timer t)
        interrupt_enable level
        insert_thread t
        pure eok)
      else pure error

-- the callback of a thread's timer
unfoldable pub thread_timeout : ℕ → M (Unit {0})
thread_timeout t = do
  k ← get
  rt_assert (stat_of (k.thread t).stat == stat_suspend)
  modify (set_error t etimeout)
  modify (set_links (list_remove (tlist t)))
  insert_thread t
  schedule

-- whether `tlist.next != tlist.prev`
unfoldable pub has_company : ℕ → Kernel → Bool
has_company t k = ite (node_eq (k.links.next (tlist t)) (k.links.prev (tlist t))) false true

unfoldable pub thread_yield : M Err
unfolding has_company self
thread_yield = do
  level ← interrupt_disable
  t ← self
  k ← get
  if stat_of (k.thread t).stat == stat_ready && has_company t k
      then (do
        modify (set_links (list_remove (tlist t)))
        modify (set_links (insert_before (ready (k.thread t).current_priority) (tlist t)))
        interrupt_enable level
        schedule
        pure eok)
      else (do interrupt_enable level; pure eok)

-- `rt_thread_sleep` up to the switch, with the fuel of `rt_timer_start`.
unfoldable pub thread_sleep : ℕ → ℕ → M (Unit {0})
unfolding self
thread_sleep fuel ticks = do
  level ← interrupt_disable
  t ← self
  thread_suspend t
  timer_control (thread_timer t) (set_time ticks)
  timer_start fuel (thread_timer t)
  interrupt_enable level
  schedule

-- What `rt_thread_sleep` does when thread `t` runs again.
unfoldable pub sleep_wake : ℕ → M Err
sleep_wake t = do
  k ← get
  elim (k.thread t).error [ etimeout ↦ modify (set_error t eok) | _ ↦ pure tt ]
  pure eok

unfoldable pub thread_startup : ℕ → M Err
unfolding priority_mask
thread_startup t = do
  k ← get
  rt_assert (stat_of (k.thread t).stat == stat_init)
  modify (set_priority t (k.thread t).init_priority)
  modify (set_mask t (priority_mask (k.thread t).init_priority))
  modify (set_stat t stat_suspend)
  thread_resume t
  k ← get
  elim k.current [ none ↦ pure tt | some _ ↦ schedule ]
  pure eok

-- RT_THREAD_CTRL_CHANGE_PRIORITY
unfoldable pub change_priority : ℕ → ℕ → M Err
unfolding priority_mask
change_priority t p = do
  level ← interrupt_disable
  k ← get
  if stat_of (k.thread t).stat == stat_ready
      then (do
        remove_thread t
        modify (set_priority t p)
        modify (set_mask t (priority_mask p))
        insert_thread t)
      else (do modify (set_priority t p); modify (set_mask t (priority_mask p)))
  interrupt_enable level
  pure eok
