-- ===== src/Kernel.antt =====
-- The state of the kernel, and the commands that its functions are made of.
-- The fields are those of include/rtdef.h and the static variables of src/scheduler.c, src/clock.c,
-- src/irq.c and src/timer.c, under the configuration of bsp/rtconfig.h: 32 priorities, no hooks, no
-- signals, no software timers, one level of timer list.
use Prim.Native.Nat.{bit_and, bit_or}
use rtthread_nano_to_riscv.Prelude.{
  ℕ, ◌-◌, ◌^◌, Bool, true, false, Option, none, some, List, ite, ℕ_discrete,
}
use rtthread_nano_to_riscv.Service.Node.{TimerId, timer_eq}
use rtthread_nano_to_riscv.Service.Links.{Links}

-- `rt_err_t`: RT_EOK, -RT_ERROR and so on
pub data Err : Type 0 where
  eok error etimeout efull eempty enomem enosys ebusy eio eintr einval : Err

-- RT_THREAD_INIT ... RT_THREAD_STAT_MASK
abbrev pub stat_init : ℕ
stat_init = 0

abbrev pub stat_ready : ℕ
stat_ready = 1

abbrev pub stat_suspend : ℕ
stat_suspend = 2

abbrev pub stat_close : ℕ
stat_close = 4

abbrev pub stat_mask : ℕ
stat_mask = 0x0f

-- RT_THREAD_PRIORITY_MAX
abbrev pub priority_max : ℕ
priority_max = 32

-- `struct rt_thread`, less its name, its entry and its stack, which the kernel only passes on. Its
-- list nodes are in `Links`, and its timer is in the timer table.
pub record Thread : Type 0 where
  pub stat : ℕ
  pub current_priority : ℕ
  pub init_priority : ℕ
  pub number_mask : ℕ
  pub init_tick : ℕ
  pub remaining_tick : ℕ
  pub error : Err
  -- the events that it waits for, and the option
  pub event_set : ℕ
  pub event_info : ℕ

-- `struct rt_timer`; its callback is the function that runs the timer's id.
pub record Timer : Type 0 where
  pub flag : ℕ
  pub init_tick : ℕ
  pub timeout_tick : ℕ

-- `struct rt_semaphore`
pub record Semaphore : Type 0 where
  pub value : ℕ
  pub flag : ℕ

-- `struct rt_mutex`, its owner `none` for RT_NULL
pub record Mutex : Type 0 where
  pub flag : ℕ
  pub value : ℕ
  pub original_priority : ℕ
  pub hold : ℕ
  pub owner : Option ℕ

-- `struct rt_event`
pub record Event : Type 0 where
  pub flag : ℕ
  pub set : ℕ

-- `struct rt_mailbox`: `msg_pool` is the mail at each offset, and `senders` the number of the list
-- `suspend_sender_thread`.
pub record Mailbox : Type 0 where
  pub flag : ℕ
  pub msg_pool : ℕ → ℕ
  pub size : ℕ
  pub entry : ℕ
  pub in_offset : ℕ
  pub out_offset : ℕ
  pub senders : ℕ

-- `struct rt_messagequeue`, a pointer to a message as the message's address, `none` for RT_NULL
pub record MessageQueue : Type 0 where
  pub flag : ℕ
  pub msg_pool : ℕ
  pub msg_size : ℕ
  pub max_msgs : ℕ
  pub entry : ℕ
  pub head : Option ℕ
  pub tail : Option ℕ
  pub free : Option ℕ

-- The word in front of a block of a memory pool: RT_NULL, the next free block, or the pool that the
-- block was taken from.
pub data BlockWord : Type 0 where
  null : BlockWord
  next_block : ℕ → BlockWord
  of_pool : ℕ → BlockWord

-- `struct rt_mempool`, `block_list` as such a word
pub record Mempool : Type 0 where
  pub start_address : ℕ
  pub size : ℕ
  pub block_size : ℕ
  pub block_list : BlockWord
  pub block_total_count : ℕ
  pub block_free_count : ℕ
  pub suspend_thread_count : ℕ

-- what the kernel asks of libcpu/context_gcc.S and libcpu/cpuport.c, as the threads `from` and `to`
pub data Switch : Type 0 where
  context_switch : ℕ → ℕ → Switch
  context_switch_interrupt : ℕ → ℕ → Switch
  context_switch_to : ℕ → Switch

pub record Kernel : Type 0 where
  pub links : Links
  pub thread : ℕ → Thread
  pub timer : TimerId → Timer
  -- The objects by their numbers. An IPC object or pool waits with the list `suspended` of its number.
  pub sem : ℕ → Semaphore
  pub mutex : ℕ → Mutex
  pub event : ℕ → Event
  pub mailbox : ℕ → Mailbox
  pub message_queue : ℕ → MessageQueue
  pub mempool : ℕ → Mempool
  -- the first word of each block of the memory pools, by its address
  pub block_word : ℕ → BlockWord
  -- `type` of the object at an address
  pub object_type : ℕ → ℕ
  -- the link in front of each message of the message queues, by its address, and the memory
  pub msg_next : ℕ → Option ℕ
  pub bytes : ℕ → ℕ
  -- `rt_current_thread`, `none` for RT_NULL, and `rt_current_priority`
  pub current : Option ℕ
  pub current_priority : ℕ
  -- `rt_thread_ready_priority_group`
  pub ready_group : ℕ
  -- `rt_scheduler_lock_nest`, an `rt_int16_t` as its bit pattern, and `rt_interrupt_nest`
  pub lock_nest : ℕ
  pub interrupt_nest : ℕ
  -- `rt_tick`, and `random_nr` of `rt_timer_start`
  pub tick : ℕ
  pub random_nr : ℕ
  -- whether interrupts are enabled
  pub irq : Bool
  -- the switches asked for, the last one first
  pub switches : List Switch

-- A command gives a value and the new state, or `none` for a failed RT_ASSERT, which halts the
-- system, and for an access through a pointer that is no such object.
abbrev pub M : Type 0 → Type 0
M A = Kernel → Option (A × Kernel)

abbrev pub pure : {A : Type 0} → A → M A
pure a k = some (a, k)

abbrev pub fault : {A : Type 0} → M A
fault k = none

abbrev pub and_then : {A B : Type 0} → Option (A × Kernel) → (A → M B) → Option (B × Kernel)
and_then none f = none
and_then (some (a, k)) f = f a k

infixl 5 ◌>>=◌ ◌>>◌
abbrev pub ◌>>=◌ : {A B : Type 0} → M A → (A → M B) → M B
◌>>=◌ m f k = and_then (m k) f

abbrev pub ◌>>◌ : {A B : Type 0} → M A → M B → M B
m >> n = m >>= λ _. n

abbrev pub get : M Kernel
get k = some (k, k)

-- an assignment
abbrev pub modify : (Kernel → Kernel) → M (Unit {0})
modify f k = some (tt, f k)

-- RT_ASSERT
abbrev pub rt_assert : Bool → M (Unit {0})
rt_assert true k = some (tt, k)
rt_assert false k = none

abbrev pub set_links : (Links → Links) → Kernel → Kernel
set_links f k = record k { links = f k.links }

-- `thread->field = v`: one field of one thread. The other fields are those that they were.
abbrev pub set_stat : ℕ → ℕ → Kernel → Kernel
set_stat t v k = record k {
  thread = λ u. record (k.thread u) { stat = ite (ℕ_discrete u t) v (k.thread u).stat };
}

abbrev pub set_priority : ℕ → ℕ → Kernel → Kernel
set_priority t v k = record k {
  thread = λ u. record (k.thread u) {
    current_priority = ite (ℕ_discrete u t) v (k.thread u).current_priority;
  };
}

abbrev pub set_mask : ℕ → ℕ → Kernel → Kernel
set_mask t v k = record k {
  thread =
      λ u. record (k.thread u) { number_mask = ite (ℕ_discrete u t) v (k.thread u).number_mask };
}

abbrev pub set_remaining_tick : ℕ → ℕ → Kernel → Kernel
set_remaining_tick t v k = record k {
  thread = λ u. record (k.thread u) {
    remaining_tick = ite (ℕ_discrete u t) v (k.thread u).remaining_tick;
  };
}

abbrev pub set_error : ℕ → Err → Kernel → Kernel
set_error t v k = record k {
  thread = λ u. record (k.thread u) { error = ite (ℕ_discrete u t) v (k.thread u).error };
}

-- `timer->field = v`
abbrev pub set_flag : TimerId → ℕ → Kernel → Kernel
set_flag t v k = record k {
  timer = λ u. record (k.timer u) { flag = ite (timer_eq u t) v (k.timer u).flag };
}

abbrev pub set_timeout_tick : TimerId → ℕ → Kernel → Kernel
set_timeout_tick t v k = record k {
  timer = λ u. record (k.timer u) { timeout_tick = ite (timer_eq u t) v (k.timer u).timeout_tick };
}

abbrev pub set_timer_tick : TimerId → ℕ → Kernel → Kernel
set_timer_tick t v k = record k {
  timer = λ u. record (k.timer u) { init_tick = ite (timer_eq u t) v (k.timer u).init_tick };
}

-- `rt_hw_interrupt_disable` returns the level that `rt_hw_interrupt_enable` restores.
abbrev pub interrupt_disable : M Bool
interrupt_disable k = some (k.irq, record k { irq = false })

abbrev pub interrupt_enable : Bool → M (Unit {0})
interrupt_enable level k = some (tt, record k { irq = level })

-- `~mask` of an `rt_uint32_t`
abbrev pub complement : ℕ → ℕ
complement mask = 2 ^ 32 - 1 - mask

-- `thread->stat & RT_THREAD_STAT_MASK`, and `flag | (stat & ~RT_THREAD_STAT_MASK)` for a byte `stat`
unfoldable pub stat_of : ℕ → ℕ
stat_of stat = bit_and stat stat_mask

unfoldable pub with_stat : ℕ → ℕ → ℕ
with_stat flag stat = bit_or flag (bit_and stat 0xf0)
