-- ===== src/Ipc/Event.antt =====
-- The event sets of src/ipc.c.
pub mod Waking
pub mod Receipt
use Prim.Native.Nat.{bit_and, bit_or}
use rtthread_nano_to_riscv.Prelude.{
  ℕ, zero, suc, ◌+◌, ◌-◌, ◌%◌, ◌^◌, Bool, true, false, not, Option, none, some, ◌==◌, if◌then◌else◌,
  ite, ℕ_discrete,
}
use rtthread_nano_to_riscv.Service.Node.{Node, suspended, node_eq}
use rtthread_nano_to_riscv.Service.Links.{list_init, list_isempty}
use rtthread_nano_to_riscv.Kernel.{
  Kernel, M, pure, fault, ◌>>=◌, ◌>>◌, get, modify, rt_assert, set_links, set_error,
  interrupt_disable, interrupt_enable, complement, Err, eok, error, etimeout,
}
use rtthread_nano_to_riscv.Scheduler.{schedule, thread_entry}
use rtthread_nano_to_riscv.Thread.{self, thread_resume}
use rtthread_nano_to_riscv.Ipc.{
  in_thread_context, ipc_list_suspend, ipc_list_resume_all, wait_timer,
}

-- RT_EVENT_FLAG_AND, RT_EVENT_FLAG_OR and RT_EVENT_FLAG_CLEAR
abbrev pub flag_and : ℕ
flag_and = 1

abbrev pub flag_or : ℕ
flag_or = 2

abbrev pub flag_clear : ℕ
flag_clear = 4

abbrev pub has : ℕ → ℕ → Bool
has option flag = not (bit_and option flag == 0)

-- `event->set = v`, and the fields of a thread that waits
abbrev pub set_set : ℕ → ℕ → Kernel → Kernel
set_set i v k = record k {
  event = λ j. record (k.event j) { set = ite (ℕ_discrete j i) v (k.event j).set };
}

abbrev pub set_event_flag : ℕ → ℕ → Kernel → Kernel
set_event_flag i v k = record k {
  event = λ j. record (k.event j) { flag = ite (ℕ_discrete j i) v (k.event j).flag };
}

abbrev pub set_event_set : ℕ → ℕ → Kernel → Kernel
set_event_set t v k = record k {
  thread = λ u. record (k.thread u) { event_set = ite (ℕ_discrete u t) v (k.thread u).event_set };
}

abbrev pub set_event_info : ℕ → ℕ → Kernel → Kernel
set_event_info t v k = record k {
  thread = λ u. record (k.thread u) { event_info = ite (ℕ_discrete u t) v (k.thread u).event_info };
}

-- `rt_event_init`, less its call of `rt_object_init`
unfoldable pub event_init : ℕ → ℕ → M Err
event_init i flag = do
  modify (set_event_flag i flag)
  modify (set_links (list_init (suspended i)))
  modify (set_set i 0)
  pure eok

-- Whether the events in `set` are what a thread waits for with the option and the event set `want`.
unfoldable pub is_met : ℕ → ℕ → ℕ → Bool
is_met option want set =
    if has option flag_and
    then bit_and want set == want
    else (if has option flag_or then not (bit_and want set == 0) else false)

-- the event set that `rt_event_send` leaves in a thread which it wakes up
unfoldable pub kept_set : ℕ → ℕ → ℕ → ℕ
kept_set option want set = if has option flag_and then want else bit_and want set

-- One turn of the loop of `rt_event_send` for thread `t`: whether the thread is resumed.
unfoldable pub visit : ℕ → ℕ → M Bool
unfolding is_met kept_set
visit i t = do
  k ← get
  let th = k.thread t
  let set = (k.event i).set
  if is_met th.event_info th.event_set set
      then (do
        let kept = kept_set th.event_info th.event_set set
        modify (set_event_set t kept)
        if has th.event_info flag_clear
            then modify (set_set i (bit_and set (complement kept)))
            else pure tt
        thread_resume t
        pure true)
      else pure false

-- The loop, on fuel for its turns: whether a thread was resumed.
unfoldable pub send_loop : ℕ → ℕ → Node → Bool → M Bool
unfolding visit
send_loop zero i n need = fault
send_loop (suc fuel) i n need = do
  k ← get
  if ite (node_eq n (suspended i)) true false then pure need else (do
    t ← thread_entry n
    woken ← visit i t
    send_loop fuel i (k.links.next n) (if woken then true else need))

unfoldable pub event_send : ℕ → ℕ → ℕ → M Err
unfolding send_loop
event_send fuel i set = if set == 0 then pure error else (do
  level ← interrupt_disable
  k ← get
  modify (set_set i (bit_or (k.event i).set set))
  k ← get
  need ←
      if list_isempty (suspended i) k.links
      then pure false
      else send_loop fuel i (k.links.next (suspended i)) false
  interrupt_enable level
  if need then schedule else pure tt
  pure eok)

-- `rt_event_recv` returns an error code and what it stores through `recved`, or waits in a thread.
pub data Received : Type 0 where
  returns : Err → Option ℕ → Received
  waits : ℕ → Received

-- the part that does not wait, where the events are there
unfoldable pub receive : ℕ → ℕ → ℕ → M ℕ
receive i set option = do
  k ← get
  let got = bit_and (k.event i).set set
  if has option flag_clear
      then modify (set_set i (bit_and (k.event i).set (complement set)))
      else pure tt
  pure got

-- the part that waits, down to its call of `rt_schedule`
unfoldable pub recv_waiting : ℕ → ℕ → ℕ → ℕ → ℕ → ℕ → Bool → M Received
recv_waiting fuel i t set option timeout level = do
  modify (set_event_set t set)
  modify (set_event_info t option)
  k ← get
  ipc_list_suspend fuel (suspended i) t (k.event i).flag
  wait_timer fuel t timeout
  interrupt_enable level
  schedule
  pure (waits t)

unfoldable pub event_recv : ℕ → ℕ → ℕ → ℕ → ℕ → M Received
unfolding is_met receive recv_waiting
event_recv fuel i set option timeout = do
  in_thread_context
  if set == 0 then pure (returns error none) else (do
    t ← self
    modify (set_error t eok)
    level ← interrupt_disable
    rt_assert (if has option flag_and then true else has option flag_or)
    k ← get
    if is_met option set (k.event i).set
        then (do got ← receive i set option; interrupt_enable level; pure (returns eok (some got)))
        else (if timeout == 0
            then (do
              modify (set_error t etimeout)
              interrupt_enable level
              pure (returns etimeout none))
            else recv_waiting fuel i t set option timeout level))

-- What `rt_event_recv` does when thread `t` runs again.
unfoldable pub recv_wake : ℕ → M Received
recv_wake t = do
  k ← get
  elim (k.thread t).error [
    | eok ↦ (do
      level ← interrupt_disable
      interrupt_enable level
      pure (returns eok (some (k.thread t).event_set)))
    | e ↦ pure (returns e none)
  ]

-- RT_IPC_CMD_RESET is 1.
unfoldable pub event_control : ℕ → ℕ → ℕ → M Err
event_control fuel i cmd =
    if cmd == 1
    then (do
      level ← interrupt_disable
      ipc_list_resume_all fuel (suspended i)
      modify (set_set i 0)
      interrupt_enable level
      schedule
      pure eok)
    else pure error
