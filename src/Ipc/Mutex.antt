-- ===== src/Ipc/Mutex.antt =====
-- The mutexes of src/ipc.c, with priority inheritance.
pub mod Owner
pub mod Handover
pub mod Inherit
use rtthread_nano_to_riscv.Prelude.{
  ℕ, ◌+◌, ◌-◌, ◌%◌, ◌^◌, Bool, true, false, Option, none, some, ◌==◌, ltb, if◌then◌else◌, ite,
  ℕ_discrete,
}
use rtthread_nano_to_riscv.Service.Node.{suspended}
use rtthread_nano_to_riscv.Service.Links.{list_init, list_isempty}
use rtthread_nano_to_riscv.Kernel.{
  Kernel, M, pure, ◌>>=◌, ◌>>◌, get, modify, set_links, set_error, interrupt_disable,
  interrupt_enable, Err, eok, error, etimeout, eintr,
}
use rtthread_nano_to_riscv.Scheduler.{schedule, thread_entry}
use rtthread_nano_to_riscv.Thread.{self, change_priority}
use rtthread_nano_to_riscv.Ipc.{
  Taken, returns, waits, in_thread_context, ipc_list_suspend, ipc_list_resume, wait_timer,
}

-- `mutex->field = v`
abbrev pub set_value : ℕ → ℕ → Kernel → Kernel
set_value i v k = record k {
  mutex = λ j. record (k.mutex j) { value = ite (ℕ_discrete j i) v (k.mutex j).value };
}

abbrev pub set_original : ℕ → ℕ → Kernel → Kernel
set_original i v k = record k {
  mutex = λ j. record (k.mutex j) {
    original_priority = ite (ℕ_discrete j i) v (k.mutex j).original_priority;
  };
}

abbrev pub set_hold : ℕ → ℕ → Kernel → Kernel
set_hold i v k = record k {
  mutex = λ j. record (k.mutex j) { hold = ite (ℕ_discrete j i) v (k.mutex j).hold };
}

abbrev pub set_owner : ℕ → Option ℕ → Kernel → Kernel
set_owner i v k = record k {
  mutex = λ j. record (k.mutex j) { owner = ite (ℕ_discrete j i) v (k.mutex j).owner };
}

abbrev pub set_mutex_flag : ℕ → ℕ → Kernel → Kernel
set_mutex_flag i v k = record k {
  mutex = λ j. record (k.mutex j) { flag = ite (ℕ_discrete j i) v (k.mutex j).flag };
}

-- `rt_mutex_init`, less its call of `rt_object_init`
unfoldable pub mutex_init : ℕ → ℕ → M Err
mutex_init i flag = do
  modify (set_links (list_init (suspended i)))
  modify (set_value i 1)
  modify (set_owner i none)
  modify (set_original i 0xff)
  modify (set_hold i 0)
  modify (set_mutex_flag i flag)
  pure eok

-- `mutex->owner == thread`
unfoldable pub is_owner : Option ℕ → ℕ → Bool
is_owner none t = false
is_owner (some o) t = o == t

-- `mutex->owner` where the code goes on to read through it, a fault at RT_NULL
abbrev pub not_null : Option ℕ → M ℕ
not_null none k = none
not_null (some o) k = some (o, k)

unfoldable pub owner_of : ℕ → M ℕ
owner_of i k = not_null (k.mutex i).owner k

-- the raise of the owner's priority to that of thread `t`
unfoldable pub inherit : ℕ → ℕ → M (Unit {0})
unfolding owner_of
inherit i t = do
  o ← owner_of i
  k ← get
  if ltb (k.thread t).current_priority (k.thread o).current_priority
      then (do change_priority o (k.thread t).current_priority; pure tt)
      else pure tt

-- `rt_mutex_take` from `__again` on, in thread `t` that is not the owner, down to its call of
-- `rt_schedule` where it waits.
unfoldable pub mutex_try : ℕ → ℕ → ℕ → ℕ → Bool → M Taken
unfolding inherit
mutex_try fuel i t time temp = do
  k ← get
  if ltb 0 (k.mutex i).value
      then (do
        modify (set_value i ((k.mutex i).value - 1))
        modify (set_owner i (some t))
        modify (set_original i ((k.thread t).current_priority % 2 ^ 8))
        modify (set_hold i (((k.mutex i).hold + 1) % 2 ^ 8))
        interrupt_enable temp
        pure (returns eok))
      else (if time == 0
          then (do modify (set_error t etimeout); interrupt_enable temp; pure (returns etimeout))
          else (do
            inherit i t
            k ← get
            ipc_list_suspend fuel (suspended i) t (k.mutex i).flag
            wait_timer fuel t time
            interrupt_enable temp
            schedule
            pure (waits t)))

unfoldable pub mutex_take : ℕ → ℕ → ℕ → M Taken
unfolding is_owner mutex_try
mutex_take fuel i time = do
  in_thread_context
  t ← self
  temp ← interrupt_disable
  modify (set_error t eok)
  k ← get
  if is_owner (k.mutex i).owner t
      then (do
        modify (set_hold i (((k.mutex i).hold + 1) % 2 ^ 8))
        interrupt_enable temp
        pure (returns eok))
      else mutex_try fuel i t time temp

-- What `rt_mutex_take` does when thread `t` runs again. After -RT_EINTR it tries again, with the
-- interrupts that `rt_hw_interrupt_enable` left.
unfoldable pub mutex_wake : ℕ → ℕ → ℕ → ℕ → Bool → M Taken
unfolding mutex_try
mutex_wake fuel i t time temp = do
  k ← get
  elim (k.thread t).error [
    | eok ↦ (do level ← interrupt_disable; interrupt_enable level; pure (returns eok))
    | eintr ↦ mutex_try fuel i t time temp
    | e ↦ pure (returns e)
  ]

-- The parts of `rt_mutex_release` after the last hold is gone: the thread gets back the priority that it had,
-- and the mutex goes to the thread that waits first. The result is whether there is one.
unfoldable pub restore : ℕ → ℕ → M (Unit {0})
restore i t = do
  k ← get
  if (k.mutex i).original_priority == (k.thread t).current_priority
      then pure tt
      else (do change_priority t (k.mutex i).original_priority; pure tt)

unfoldable pub pass_on : ℕ → M Bool
pass_on i = do
  k ← get
  if list_isempty (suspended i) k.links
      then (do
        modify (set_value i (((k.mutex i).value + 1) % 2 ^ 16))
        modify (set_owner i none)
        modify (set_original i 0xff)
        pure false)
      else (do
        u ← thread_entry (k.links.next (suspended i))
        modify (set_owner i (some u))
        modify (set_original i ((k.thread u).current_priority % 2 ^ 8))
        modify (set_hold i (((k.mutex i).hold + 1) % 2 ^ 8))
        ipc_list_resume (suspended i)
        pure true)

unfoldable pub give_up : ℕ → ℕ → M Bool
unfolding restore pass_on
give_up i t = do restore i t; pass_on i

unfoldable pub mutex_release : ℕ → M Err
unfolding is_owner give_up
mutex_release i = do
  in_thread_context
  t ← self
  temp ← interrupt_disable
  k ← get
  if is_owner (k.mutex i).owner t
      then (do
        modify (set_hold i (((k.mutex i).hold + 2 ^ 8 - 1) % 2 ^ 8))
        k ← get
        wake ← if (k.mutex i).hold == 0 then give_up i t else pure false
        interrupt_enable temp
        if wake then schedule else pure tt
        pure eok)
      else (do modify (set_error t error); interrupt_enable temp; pure error)

unfoldable pub mutex_control : ℕ → M Err
mutex_control i = pure error
