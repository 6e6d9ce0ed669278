-- ===== src/Mempool.antt =====
-- src/mempool.c: pools of memory blocks of one size. Each block has a word in front, which links the
-- free blocks and names the pool of a block that is in use. Addresses do not wrap.
pub mod Blocks
pub mod Init
use rtthread_nano_to_riscv.Prelude.{
  ℕ, zero, suc, ◌+◌, ◌-◌, ◌*◌, ◌/◌, ◌%◌, ◌^◌, Bool, true, false, Option, none, some, ◌==◌, ltb, leb,
  ◌&&◌, if◌then◌else◌, ite, ℕ_discrete,
}
use rtthread_nano_to_riscv.Service.Node.{suspended, tlist}
use rtthread_nano_to_riscv.Service.Links.{insert_after, list_init, list_isempty}
use rtthread_nano_to_riscv.Kernel.{
  Kernel, BlockWord, null, next_block, of_pool, M, pure, fault, ◌>>=◌, ◌>>◌, get, modify, rt_assert,
  set_links, set_error, interrupt_disable, interrupt_enable, Err, eok, error, etimeout,
}
use rtthread_nano_to_riscv.Scheduler.{schedule, thread_entry}
use rtthread_nano_to_riscv.Thread.{self, thread_suspend, thread_resume}
use rtthread_nano_to_riscv.Mem.{align, align_down}
use rtthread_nano_to_riscv.Ipc.{wait_timer}
use rtthread_nano_to_riscv.Ipc.Mailbox.{time_left}

-- the size of a block with the word in front
abbrev pub stride : ℕ → ℕ
stride block_size = block_size + 4

-- `mp->field = v`
abbrev pub set_list : ℕ → BlockWord → Kernel → Kernel
set_list i v k = record k {
  mempool =
      λ j. record (k.mempool j) { block_list = ite (ℕ_discrete j i) v (k.mempool j).block_list };
}

abbrev pub set_free_count : ℕ → ℕ → Kernel → Kernel
set_free_count i v k = record k {
  mempool = λ j. record (k.mempool j) {
    block_free_count = ite (ℕ_discrete j i) v (k.mempool j).block_free_count;
  };
}

abbrev pub set_total_count : ℕ → ℕ → Kernel → Kernel
set_total_count i v k = record k {
  mempool = λ j. record (k.mempool j) {
    block_total_count = ite (ℕ_discrete j i) v (k.mempool j).block_total_count;
  };
}

abbrev pub set_waiting_count : ℕ → ℕ → Kernel → Kernel
set_waiting_count i v k = record k {
  mempool = λ j. record (k.mempool j) {
    suspend_thread_count = ite (ℕ_discrete j i) v (k.mempool j).suspend_thread_count;
  };
}

abbrev pub set_area : ℕ → ℕ → ℕ → ℕ → Kernel → Kernel
set_area i start size block_size k = record k {
  mempool = λ j. record (k.mempool j) {
    start_address = ite (ℕ_discrete j i) start (k.mempool j).start_address;
    size = ite (ℕ_discrete j i) size (k.mempool j).size;
    block_size = ite (ℕ_discrete j i) block_size (k.mempool j).block_size;
  };
}

-- a write to the word in front of the block at an address
abbrev pub set_word : ℕ → BlockWord → Kernel → Kernel
set_word at v k = record k { block_word = λ a. ite (ℕ_discrete a at) v (k.block_word a) }

-- The loop of `rt_mp_init` for `left` blocks from the one at `at` on.
unfoldable pub link_blocks : ℕ → ℕ → ℕ → Kernel → Kernel
link_blocks width at zero k = k
link_blocks width at (suc left) k =
    link_blocks width (at + width) left (set_word at (next_block (at + width)) k)

-- `rt_mp_init`, less its call of `rt_object_init`. With no block at all the last write is in front of
-- the pool.
unfoldable pub mp_init : ℕ → ℕ → ℕ → ℕ → M Err
unfolding link_blocks
mp_init i start size block_size = do
  let aligned_size = align_down size
  let block = align block_size
  let total = aligned_size / stride block
  modify (set_area i start aligned_size block)
  modify (set_total_count i total)
  modify (set_free_count i total)
  modify (set_links (list_init (suspended i)))
  modify (set_waiting_count i 0)
  modify (link_blocks (stride block) start total)
  modify (set_word (start + total * stride block - stride block) null)
  modify (set_list i (next_block start))
  pure eok

-- The loop of `rt_mp_detach` that wakes the threads, on fuel for its turns.
unfoldable pub wake_all : ℕ → ℕ → M (Unit {0})
wake_all zero i = fault
wake_all (suc fuel) i = do
  k ← get
  if list_isempty (suspended i) k.links then pure tt else (do
    temp ← interrupt_disable
    k ← get
    t ← thread_entry (k.links.next (suspended i))
    modify (set_error t error)
    thread_resume t
    k ← get
    modify (set_waiting_count i (((k.mempool i).suspend_thread_count + 2 ^ 32 - 1) % 2 ^ 32))
    interrupt_enable temp
    wake_all fuel i)

-- `rt_mp_alloc` returns the address of a block, with RT_NULL as `none`, or it waits in thread `t` with
-- what is left of the time to wait from the tick `start` on.
pub data Allocated : Type 0 where
  returns : Option ℕ → Allocated
  waits : (thread : ℕ) → (time start : ℕ) → Allocated

-- The part after the loop: the first free block is taken out.
unfoldable pub take_block : ℕ → M ℕ
take_block i = do
  k ← get
  modify (set_free_count i (((k.mempool i).block_free_count + 2 ^ 32 - 1) % 2 ^ 32))
  elim (k.mempool i).block_list [
    | next_block at ↦ (do
      modify (set_list i (k.block_word at))
      modify (set_word at (of_pool i))
      pure (at + 4))
    | _ ↦ fault
  ]

-- The part of the loop that waits, down to its call of `rt_schedule`. The thread goes to the front of the
-- wait list.
unfoldable pub alloc_waiting : ℕ → ℕ → ℕ → Bool → M Allocated
alloc_waiting fuel i time level = do
  k ← get
  rt_assert (k.interrupt_nest == 0)
  t ← self
  modify (set_error t eok)
  thread_suspend t
  modify (set_links (insert_after (suspended i) (tlist t)))
  k ← get
  modify (set_waiting_count i (((k.mempool i).suspend_thread_count + 1) % 2 ^ 32))
  wait_timer fuel t time
  interrupt_enable level
  schedule
  pure (waits t time k.tick)

-- `rt_mp_alloc` from its loop on, with interrupts disabled
unfoldable pub alloc_loop : ℕ → ℕ → ℕ → Bool → M Allocated
unfolding take_block alloc_waiting
alloc_loop fuel i time level = do
  k ← get
  if (k.mempool i).block_free_count == 0
      then (if time == 0
          then (do interrupt_enable level; pure (returns none))
          else alloc_waiting fuel i time level)
      else (do block ← take_block i; interrupt_enable level; pure (returns (some block)))

-- `rt_set_errno` is not modelled.
unfoldable pub mp_alloc : ℕ → ℕ → ℕ → M Allocated
unfolding alloc_loop
mp_alloc fuel i time = do level ← interrupt_disable; alloc_loop fuel i time level

-- How `rt_mp_alloc` goes on when thread `t` runs again.
unfoldable pub alloc_wake : ℕ → ℕ → ℕ → ℕ → ℕ → M Allocated
unfolding alloc_loop time_left
alloc_wake fuel i t time start = do
  k ← get
  elim (k.thread t).error [
    | eok ↦ (do level ← interrupt_disable; alloc_loop fuel i (time_left time start k.tick) level)
    | e ↦ pure (returns none)
  ]

-- the pool that the word in front of a block names, a fault where it names none
unfoldable pub pool_of : BlockWord → M ℕ
pool_of (of_pool i) k = some (i, k)
pool_of _ k = none

unfoldable pub mp_free : ℕ → M (Unit {0})
unfolding pool_of
mp_free block = do
  k ← get
  i ← pool_of (k.block_word (block - 4))
  level ← interrupt_disable
  modify (set_free_count i (((k.mempool i).block_free_count + 1) % 2 ^ 32))
  modify (set_word (block - 4) (k.mempool i).block_list)
  modify (set_list i (next_block (block - 4)))
  if ltb 0 (k.mempool i).suspend_thread_count
      then (do
        t ← thread_entry (k.links.next (suspended i))
        modify (set_error t eok)
        thread_resume t
        k ← get
        modify (set_waiting_count i (((k.mempool i).suspend_thread_count + 2 ^ 32 - 1) % 2 ^ 32))
        interrupt_enable level
        schedule)
      else interrupt_enable level
