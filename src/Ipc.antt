-- ===== src/Ipc.antt =====
-- src/ipc.c: the wait lists of IPC objects, and semaphores.
pub mod Waiting
pub mod Suspend
pub mod Resume
pub mod Semaphore
pub mod Mutex
pub mod Event
pub mod Mailbox
pub mod Messages
use rtthread_nano_to_riscv.Prelude.{
  ℕ, zero, suc, ◌+◌, ◌-◌, ◌%◌, ◌^◌, ◌&&◌, Bool, true, false, Option, none, some, ◌==◌, ltb, leb,
  if◌then◌else◌, ite, ℕ_discrete,
}
use rtthread_nano_to_riscv.Service.Node.{Node, suspended, tlist, thread_timer, node_eq}
use rtthread_nano_to_riscv.Service.Links.{insert_before, list_isempty}
use rtthread_nano_to_riscv.Kernel.{
  Kernel, M, pure, fault, ◌>>=◌, ◌>>◌, get, modify, rt_assert, set_links, set_error,
  interrupt_disable, interrupt_enable, Err, eok, error, etimeout,
}
use rtthread_nano_to_riscv.Scheduler.{schedule, thread_entry}
use rtthread_nano_to_riscv.Timer.{timer_start, timer_control, set_time}
use rtthread_nano_to_riscv.Thread.{self, thread_suspend, thread_resume}

-- RT_IPC_FLAG_FIFO and RT_IPC_FLAG_PRIO
abbrev pub flag_fifo : ℕ
flag_fifo = 0

abbrev pub flag_prio : ℕ
flag_prio = 1

-- The node that the loop of `rt_ipc_list_suspend` stops at, from `n` on: that of the first thread that
-- is less urgent than `priority`, or the head. On fuel; `none` means that it ran out, or that a node
-- is in no thread.
unfoldable pub find_place : ℕ → ℕ → Node → Node → Kernel → Option Node
find_place zero priority list n k = none
find_place (suc fuel) priority list n k =
    let rest = find_place fuel priority list (k.links.next n) k in
    ite (node_eq n list) (some list) (elim n [
      | tlist s ↦ if ltb priority (k.thread s).current_priority then some (tlist s) else rest
      | _ ↦ none
    ])

unfoldable pub insert_at : Node → Option Node → M (Unit {0})
insert_at n none = fault
insert_at n (some place) = modify (set_links (insert_before place n))

unfoldable pub ipc_list_suspend : ℕ → Node → ℕ → ℕ → M Err
unfolding find_place insert_at
ipc_list_suspend fuel list t flag = do
  thread_suspend t
  k ← get
  if flag == flag_fifo
      then modify (set_links (insert_before list (tlist t)))
      else (if flag == flag_prio
          then insert_at (tlist t)
              (find_place fuel (k.thread t).current_priority list (k.links.next list) k)
          else pure tt)
  pure eok

unfoldable pub ipc_list_resume : Node → M Err
ipc_list_resume list = do k ← get; t ← thread_entry (k.links.next list); thread_resume t; pure eok

-- The loop, on fuel for its turns.
unfoldable pub ipc_list_resume_all : ℕ → Node → M Err
ipc_list_resume_all zero list = fault
ipc_list_resume_all (suc fuel) list = do
  k ← get
  if list_isempty list k.links then pure eok else (do
    temp ← interrupt_disable
    k ← get
    t ← thread_entry (k.links.next list)
    modify (set_error t error)
    thread_resume t
    interrupt_enable temp
    ipc_list_resume_all fuel list)

-- `sem->value = v`
abbrev pub set_value : ℕ → ℕ → Kernel → Kernel
set_value s v k = record k {
  sem = λ i. record (k.sem i) { value = ite (ℕ_discrete i s) v (k.sem i).value };
}

-- How a call that may wait goes on: it returns, or it waits in
-- thread `t`, and goes on with its wake-up function when this thread runs again.
pub data Taken : Type 0 where
  returns : Err → Taken
  waits : ℕ → Taken

-- RT_DEBUG_IN_THREAD_CONTEXT
unfoldable pub in_thread_context : M (Unit {0})
in_thread_context = do
  k ← get
  rt_assert (elim k.current [ none ↦ false | some t ↦ true ])
  rt_assert (k.interrupt_nest == 0)

-- The start of the thread's timer for a time to wait, `time` the bit pattern of an `rt_int32_t`.
unfoldable pub wait_timer : ℕ → ℕ → ℕ → M (Unit {0})
wait_timer fuel t time =
    if leb 1 time && ltb time (2 ^ 31)
    then (do
      timer_control (thread_timer t) (set_time time)
      timer_start fuel (thread_timer t)
      pure tt)
    else pure tt

-- The part of `rt_sem_take` that waits, down to its call of `rt_schedule`, for interrupts at the level
-- `temp` outside.
unfoldable pub take_waiting : ℕ → ℕ → ℕ → Bool → M Taken
unfolding wait_timer
take_waiting fuel s time temp = do
  in_thread_context
  t ← self
  modify (set_error t eok)
  k ← get
  ipc_list_suspend fuel (suspended s) t (k.sem s).flag
  wait_timer fuel t time
  interrupt_enable temp
  schedule
  pure (waits t)

unfoldable pub sem_take : ℕ → ℕ → ℕ → M Taken
unfolding take_waiting
sem_take fuel s time = do
  temp ← interrupt_disable
  k ← get
  if ltb 0 (k.sem s).value
      then (do
        modify (set_value s ((k.sem s).value - 1))
        interrupt_enable temp
        pure (returns eok))
      else (if time == 0
          then (do interrupt_enable temp; pure (returns etimeout))
          else take_waiting fuel s time temp)

-- What `rt_sem_take` returns when thread `t` runs again.
unfoldable pub take_wake : ℕ → M Err
take_wake t = do k ← get; pure (k.thread t).error

unfoldable pub sem_trytake : ℕ → ℕ → M Taken
unfolding sem_take
sem_trytake fuel s = sem_take fuel s 0

unfoldable pub sem_release : ℕ → M Err
unfolding ipc_list_resume
sem_release s = do
  temp ← interrupt_disable
  k ← get
  let wake = if list_isempty (suspended s) k.links then false else true
  if wake
      then (do ipc_list_resume (suspended s); pure tt)
      else modify (set_value s (((k.sem s).value + 1) % 2 ^ 16))
  interrupt_enable temp
  if wake then schedule else pure tt
  pure eok

-- RT_IPC_CMD_RESET is 1.
unfoldable pub sem_control : ℕ → ℕ → ℕ → ℕ → M Err
unfolding ipc_list_resume_all
sem_control fuel s cmd arg =
    if cmd == 1
    then (do
      level ← interrupt_disable
      ipc_list_resume_all fuel (suspended s)
      modify (set_value s (arg % 2 ^ 16))
      interrupt_enable level
      schedule
      pure eok)
    else pure error
