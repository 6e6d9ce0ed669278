-- ===== src/Ipc/Messages.antt =====
-- The message queues of src/ipc.c. The link in front of each message, a `struct rt_mq_message`, is kept
-- by its address, apart from the bytes of the messages.
pub mod Chain
pub mod Sending
pub mod Receiving
pub mod Init
use rtthread_nano_to_riscv.Prelude.{
  ℕ, zero, suc, ◌+◌, ◌-◌, ◌/◌, ◌%◌, ◌^◌, Bool, true, false, Option, none, some, not, ◌==◌, ltb,
  ◌&&◌, if◌then◌else◌, ite, ℕ_discrete,
}
use rtthread_nano_to_riscv.Service.Node.{suspended}
use rtthread_nano_to_riscv.Service.Links.{list_init}
use rtthread_nano_to_riscv.Kernel.{
  Kernel, M, pure, fault, ◌>>=◌, ◌>>◌, get, modify, rt_assert, set_links, set_error,
  interrupt_disable, interrupt_enable, Err, eok, error, etimeout, efull,
}
use rtthread_nano_to_riscv.Kservice.Memory.{memcpy}
use rtthread_nano_to_riscv.Mem.{align}
use rtthread_nano_to_riscv.Scheduler.{schedule}
use rtthread_nano_to_riscv.Thread.{self}
use rtthread_nano_to_riscv.Ipc.{
  in_thread_context, ipc_list_suspend, ipc_list_resume_all, wait_timer,
}
use rtthread_nano_to_riscv.Ipc.Mailbox.{Waited, returns, waits, time_left, mb_wake}

-- `mq->field = v`
abbrev pub set_head : ℕ → Option ℕ → Kernel → Kernel
set_head i v k = record k {
  message_queue =
      λ j. record (k.message_queue j) { head = ite (ℕ_discrete j i) v (k.message_queue j).head };
}

abbrev pub set_tail : ℕ → Option ℕ → Kernel → Kernel
set_tail i v k = record k {
  message_queue =
      λ j. record (k.message_queue j) { tail = ite (ℕ_discrete j i) v (k.message_queue j).tail };
}

abbrev pub set_free : ℕ → Option ℕ → Kernel → Kernel
set_free i v k = record k {
  message_queue =
      λ j. record (k.message_queue j) { free = ite (ℕ_discrete j i) v (k.message_queue j).free };
}

abbrev pub set_messages : ℕ → ℕ → Kernel → Kernel
set_messages i v k = record k {
  message_queue =
      λ j. record (k.message_queue j) { entry = ite (ℕ_discrete j i) v (k.message_queue j).entry };
}

abbrev pub set_sizes : ℕ → ℕ → ℕ → ℕ → ℕ → Kernel → Kernel
set_sizes i flag pool msg_size max_msgs k = record k {
  message_queue = λ j. record (k.message_queue j) {
    flag = ite (ℕ_discrete j i) flag (k.message_queue j).flag;
    msg_pool = ite (ℕ_discrete j i) pool (k.message_queue j).msg_pool;
    msg_size = ite (ℕ_discrete j i) msg_size (k.message_queue j).msg_size;
    max_msgs = ite (ℕ_discrete j i) max_msgs (k.message_queue j).max_msgs;
  };
}

-- `msg->next = v`
abbrev pub set_next : ℕ → Option ℕ → Kernel → Kernel
set_next at v k = record k { msg_next = λ a. ite (ℕ_discrete a at) v (k.msg_next a) }

-- A message goes in front of the free ones.
abbrev pub push_free : ℕ → ℕ → Kernel → Kernel
push_free i at k = set_free i (some at) (set_next at (k.message_queue i).free k)

-- the loop of `rt_mq_init` for `left` messages from the one at `at` on
unfoldable pub link_messages : ℕ → ℕ → ℕ → ℕ → Kernel → Kernel
link_messages i width at zero k = k
link_messages i width at (suc left) k = link_messages i width (at + width) left (push_free i at k)

-- `rt_mq_init`, less its call of `rt_object_init`
unfoldable pub mq_init : ℕ → ℕ → ℕ → ℕ → ℕ → M Err
unfolding link_messages
mq_init i pool msg_size pool_size flag = do
  let size = align msg_size % 2 ^ 16
  let max_msgs = (pool_size / (size + 4)) % 2 ^ 16
  modify (set_links (list_init (suspended i)))
  modify (set_sizes i flag pool size max_msgs)
  modify (set_head i none)
  modify (set_tail i none)
  modify (set_free i none)
  modify (link_messages i (size + 4) pool max_msgs)
  modify (set_messages i 0)
  pure eok

-- the first free message, which leaves the list of these, with the state of interrupts before
unfoldable pub take_free : ℕ → M (Option ℕ)
take_free i = do
  temp ← interrupt_disable
  k ← get
  elim (k.message_queue i).free [
    | none ↦ (do interrupt_enable temp; pure none)
    | some msg ↦ (do modify (set_free i (k.msg_next msg)); interrupt_enable temp; pure (some msg))
  ]

-- `rt_memcpy(msg + 1, buffer, size)`
abbrev pub copy_in : ℕ → ℕ → ℕ → Kernel → Kernel
copy_in msg buffer size k = record k { bytes = memcpy (msg + 4) buffer size k.bytes }

-- the link behind the last message, and the head of a queue that was empty
abbrev pub link_after : Option ℕ → ℕ → (ℕ → Option ℕ) → ℕ → Option ℕ
link_after none msg next a = next a
link_after (some last) msg next a = ite (ℕ_discrete a last) (some msg) (next a)

abbrev pub link_tail : Option ℕ → ℕ → Kernel → Kernel
link_tail tail msg k = record k { msg_next = link_after tail msg k.msg_next }

abbrev pub first_or : Option ℕ → ℕ → Option ℕ
first_or none msg = some msg
first_or (some first) msg = some first

-- the second critical section of `rt_mq_send`
unfoldable pub append : ℕ → ℕ → M (Unit {0})
append i msg = do
  temp ← interrupt_disable
  k ← get
  modify (link_tail (k.message_queue i).tail msg)
  modify (set_tail i (some msg))
  modify (set_head i (first_or (k.message_queue i).head msg))
  modify (set_messages i (((k.message_queue i).entry + 1) % 2 ^ 16))
  mb_wake i temp

-- that of `rt_mq_urgent`
unfoldable pub prepend : ℕ → ℕ → M (Unit {0})
prepend i msg = do
  temp ← interrupt_disable
  k ← get
  modify (set_next msg (k.message_queue i).head)
  modify (set_head i (some msg))
  modify (set_tail i (first_or (k.message_queue i).tail msg))
  modify (set_messages i (((k.message_queue i).entry + 1) % 2 ^ 16))
  mb_wake i temp

-- RT_ASSERT of `buffer` and `size`
abbrev pub check_buffer : ℕ → ℕ → M (Unit {0})
check_buffer buffer size = do rt_assert (not (buffer == 0)); rt_assert (not (size == 0))

unfoldable pub mq_send : ℕ → ℕ → ℕ → M Err
unfolding take_free append
mq_send i buffer size = do
  check_buffer buffer size
  k ← get
  if ltb (k.message_queue i).msg_size size then pure error else (do
    free ← take_free i
    elim free [
      | none ↦ pure efull
      | some msg ↦ (do
        modify (set_next msg none)
        modify (copy_in msg buffer size)
        append i msg
        pure eok)
    ])

unfoldable pub mq_urgent : ℕ → ℕ → ℕ → M Err
unfolding take_free prepend
mq_urgent i buffer size = do
  check_buffer buffer size
  k ← get
  if ltb (k.message_queue i).msg_size size then pure error else (do
    free ← take_free i
    elim free [
      | none ↦ pure efull
      | some msg ↦ (do modify (copy_in msg buffer size); prepend i msg; pure eok)
    ])

-- the first message, which leaves the queue; a fault where there is none
abbrev pub tail_without : Option ℕ → ℕ → Option ℕ
tail_without none msg = none
tail_without (some last) msg = if last == msg then none else some last

unfoldable pub take_first : ℕ → M ℕ
take_first i = do
  k ← get
  elim (k.message_queue i).head [
    | none ↦ fault
    | some msg ↦ (do
      modify (set_head i (k.msg_next msg))
      modify (set_tail i (tail_without (k.message_queue i).tail msg))
      pure msg)
  ]

-- the part of the loop of `rt_mq_recv` that waits, down to its call of `rt_schedule`
unfoldable pub mq_wait : {A : Type 0} → ℕ → ℕ → ℕ → ℕ → Bool → M (Waited A)
mq_wait fuel i t timeout temp = do
  k ← get
  ipc_list_suspend fuel (suspended i) t (k.message_queue i).flag
  wait_timer fuel t timeout
  interrupt_enable temp
  schedule
  pure (waits t timeout k.tick)

-- `rt_mq_recv` from its loop on, with interrupts disabled
unfoldable pub receive_loop : ℕ → ℕ → ℕ → ℕ → ℕ → Bool → M (Waited Err)
unfolding mq_wait take_first
receive_loop fuel i buffer size timeout temp = do
  k ← get
  if (k.message_queue i).entry == 0
      then (do
        in_thread_context
        t ← self
        modify (set_error t eok)
        if timeout == 0
            then (do interrupt_enable temp; modify (set_error t etimeout); pure (returns etimeout))
            else mq_wait fuel i t timeout temp)
      else (do
        msg ← take_first i
        modify (set_messages i (((k.message_queue i).entry + 2 ^ 16 - 1) % 2 ^ 16))
        interrupt_enable temp
        let most = (k.message_queue i).msg_size
        modify (λ k. record k {
          bytes = memcpy buffer (msg + 4) (if ltb most size then most else size) k.bytes;
        })
        temp ← interrupt_disable
        modify (push_free i msg)
        interrupt_enable temp
        pure (returns eok))

unfoldable pub mq_recv : ℕ → ℕ → ℕ → ℕ → ℕ → M (Waited Err)
unfolding receive_loop
mq_recv fuel i buffer size timeout = do
  check_buffer buffer size
  temp ← interrupt_disable
  k ← get
  if (k.message_queue i).entry == 0 && timeout == 0
      then (do interrupt_enable temp; pure (returns etimeout))
      else receive_loop fuel i buffer size timeout temp

-- How `rt_mq_recv` goes on when thread `t` runs again.
unfoldable pub receive_wake : ℕ → ℕ → ℕ → ℕ → ℕ → ℕ → ℕ → M (Waited Err)
unfolding receive_loop time_left
receive_wake fuel i buffer size t timeout start = do
  k ← get
  elim (k.thread t).error [
    | eok ↦ (do
      temp ← interrupt_disable
      receive_loop fuel i buffer size (time_left timeout start k.tick) temp)
    | e ↦ pure (returns e)
  ]

-- The loop of `rt_mq_control`, on fuel for its turns: every message becomes free.
unfoldable pub release_all : ℕ → ℕ → M (Unit {0})
unfolding take_first
release_all zero i = fault
release_all (suc fuel) i = do
  k ← get
  elim (k.message_queue i).head [
    | none ↦ pure tt
    | some first ↦ (do msg ← take_first i; modify (push_free i msg); release_all fuel i)
  ]

-- RT_IPC_CMD_RESET is 1.
unfoldable pub mq_control : ℕ → ℕ → ℕ → M Err
unfolding release_all
mq_control fuel i cmd =
    if cmd == 1
    then (do
      level ← interrupt_disable
      ipc_list_resume_all fuel (suspended i)
      release_all fuel i
      modify (set_messages i 0)
      interrupt_enable level
      schedule
      pure eok)
    else pure error
