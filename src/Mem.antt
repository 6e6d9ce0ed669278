-- ===== src/Mem.antt =====
-- src/mem.c: the small memory allocator, whose blocks are chained by headers at offsets of the heap.
-- RT_ALIGN_SIZE is 4, and sizeof(struct heap_mem) is 12 without RT_USING_MEMTRACE.
pub mod Chain
pub mod Find
pub mod Link
pub mod Carve
pub mod Take
pub mod Merge
pub mod Plug
pub mod Freed
pub mod Give
pub mod Calls
pub mod Malloc
pub mod Free
pub mod RoundTrip
pub mod Init
use rtthread_nano_to_riscv.Prelude.{
  ℕ, zero, suc, ◌+◌, ◌-◌, ◌*◌, ◌/◌, ◌%◌, ◌^◌, Bool, true, false, not, Option, none, some, ◌==◌, ltb,
  leb, ◌&&◌, ◌||◌, if◌then◌else◌, ite, ℕ_discrete,
}
use mathlib.Core.Option
use rtthread_nano_to_riscv.Kernel.{Kernel}
use rtthread_nano_to_riscv.Ipc.{sem_take, sem_release, Taken, returns, waits}

-- `struct heap_mem`
pub record Header : Type 0 where
  pub magic : ℕ
  pub used : ℕ
  pub next : ℕ
  pub prev : ℕ

-- The static variables of the file, the headers by their offsets from `heap_ptr`. `lfree` and
-- `heap_end` are offsets too, the latter the one after `size`.
pub record Heap : Type 0 where
  pub header : ℕ → Header
  pub lfree : ℕ
  -- `heap_ptr` and `mem_size_aligned`
  pub base : ℕ
  pub size : ℕ
  pub used_mem : ℕ
  pub max_mem : ℕ
  -- `heap_sem`
  pub lock : ℕ

-- HEAP_MAGIC
abbrev pub heap_magic : ℕ
heap_magic = 0x1ea0

-- SIZEOF_STRUCT_MEM and MIN_SIZE_ALIGNED
abbrev pub header_size : ℕ
header_size = 12

abbrev pub min_size : ℕ
min_size = 12

-- `a + b` and `a - b` of two `rt_size_t`
abbrev pub add32 : ℕ → ℕ → ℕ
add32 a b = (a + b) % 2 ^ 32

abbrev pub sub32 : ℕ → ℕ → ℕ
sub32 a b = (a + 2 ^ 32 - b) % 2 ^ 32

-- RT_ALIGN and RT_ALIGN_DOWN
unfoldable pub align_down : ℕ → ℕ
align_down n = n / 4 * 4

unfoldable pub align : ℕ → ℕ
unfolding align_down
align n = align_down (add32 n 3)

-- the offset of `heap_end`
abbrev pub heap_end : Heap → ℕ
heap_end h = h.size + header_size

-- `mem->field = v` for the header at the offset `at`
abbrev pub set_magic : ℕ → ℕ → Heap → Heap
set_magic at v h = record h {
  header = λ o. record (h.header o) { magic = ite (ℕ_discrete o at) v (h.header o).magic };
}

abbrev pub set_used : ℕ → ℕ → Heap → Heap
set_used at v h = record h {
  header = λ o. record (h.header o) { used = ite (ℕ_discrete o at) v (h.header o).used };
}

abbrev pub set_next : ℕ → ℕ → Heap → Heap
set_next at v h = record h {
  header = λ o. record (h.header o) { next = ite (ℕ_discrete o at) v (h.header o).next };
}

abbrev pub set_prev : ℕ → ℕ → Heap → Heap
set_prev at v h = record h {
  header = λ o. record (h.header o) { prev = ite (ℕ_discrete o at) v (h.header o).prev };
}

-- The two halves of `plug_holes` after its assertions, for the block at `at`.
unfoldable pub plug_forward : ℕ → Heap → Heap
plug_forward at h =
    let next = (h.header at).next in
    if not (at == next) && (h.header next).used == 0 && not (next == heap_end h)
    then set_prev (h.header next).next at (
        set_next at (h.header next).next
          (record h { lfree = if h.lfree == next then at else h.lfree }))
    else h

unfoldable pub plug_backward : ℕ → Heap → Heap
plug_backward at h =
    let prev = (h.header at).prev in
    if not (prev == at) && (h.header prev).used == 0
    then set_prev (h.header at).next prev (
        set_next prev (h.header at).next
          (record h { lfree = if h.lfree == at then prev else h.lfree }))
    else h

-- `none` where an assertion fails
unfoldable pub plug_holes : ℕ → Heap → Option Heap
unfolding plug_forward plug_backward
plug_holes at h =
    if ltb at (heap_end h) && (h.header at).used == 0
    then some (plug_backward at (plug_forward at h))
    else none

-- `rt_system_heap_init` for the addresses `begin` and `end`, less its call of `rt_sem_init`; it leaves
-- the heap as it is if there is no room.
unfoldable pub heap_init : ℕ → ℕ → Heap → Heap
unfolding align align_down
heap_init begin end h =
    let begin_align = align begin in
    let end_align = align_down end in
    if ltb (2 * header_size) end_align && leb begin_align (end_align - 2 * header_size)
    then (let size = end_align - begin_align - 2 * header_size in
        let end_at = add32 size header_size in
        let h1 = set_used 0 0 (
          set_prev 0 0 (
            set_next 0 end_at
              (set_magic 0 heap_magic (record h { base = begin_align; size = size })))) in
        let h2 =
          set_prev end_at end_at
            (set_next end_at end_at (set_used end_at 1 (set_magic end_at heap_magic h1))) in
        record h2 { lfree = 0 })
    else h

-- The loop of `rt_malloc` from the offset `ptr` on, on fuel: the offset of the first free block with
-- room for `size` bytes. The outer `none` means that the fuel ran out.
unfoldable pub find_block : ℕ → ℕ → ℕ → Heap → Option (Option ℕ)
find_block zero size ptr h = none
find_block (suc fuel) size ptr h =
    let rest = find_block fuel size (h.header ptr).next h in
    if ltb ptr (sub32 h.size size)
    then if (h.header ptr).used == 0 && leb size (sub32 (h.header ptr).next (add32 ptr header_size))
      then some (some ptr)
      else rest
    else some none

-- the statistics after an allocation of `n` bytes in all
unfoldable pub count_up : ℕ → Heap → Heap
count_up n h =
    let used = add32 h.used_mem n in
    record h { used_mem = used; max_mem = if ltb h.max_mem used then used else h.max_mem }

-- `rt_malloc` makes the rest of the block at `ptr` a block at `ptr2`, with the offset `next` behind it.
unfoldable pub link_rest : ℕ → ℕ → ℕ → Heap → Heap
link_rest ptr ptr2 next h =
    let h1 =
      set_prev ptr2 ptr (set_next ptr2 next (set_used ptr2 0 (set_magic ptr2 heap_magic h))) in
    let h2 = set_used ptr 1 (set_next ptr ptr2 h1) in
    if next == add32 h.size header_size then h2 else set_prev next ptr2 h2

unfoldable pub split_block : ℕ → ℕ → Heap → Heap
unfolding count_up
split_block ptr size h =
    let ptr2 = add32 (add32 ptr header_size) size in
    count_up (add32 size header_size) (link_rest ptr ptr2 (h.header ptr).next h)

-- The block found is used, split if the rest has room for a block.
unfoldable pub use_block : ℕ → ℕ → Heap → Heap
unfolding split_block count_up
use_block ptr size h =
    let h1 =
      if leb (add32 (add32 size header_size) min_size)
        (sub32 (h.header ptr).next (add32 ptr header_size))
      then split_block ptr size h
      else count_up (sub32 (h.header ptr).next ptr) (set_used ptr 1 h) in
    set_magic ptr heap_magic h1

-- The loop that moves `lfree` on, on fuel.
unfoldable pub next_free : ℕ → ℕ → Heap → Option ℕ
next_free zero at h = none
next_free (suc fuel) at h =
    let rest = next_free fuel (h.header at).next h in
    if not ((h.header at).used == 0) && not (at == heap_end h) then rest else some at

unfoldable pub advance_free : ℕ → ℕ → Heap → Option Heap
unfolding next_free
advance_free fuel ptr h =
    if ptr == h.lfree
    then elim (next_free fuel h.lfree h) [ none ↦ none | some l ↦ some (record h { lfree = l }) ]
    else some h

-- What `rt_malloc` does with the result of its search, while it holds the semaphore.
unfoldable pub finish_take : ℕ → ℕ → Heap → Option (Option ℕ) → Option (Option ℕ × Heap)
unfolding use_block advance_free
finish_take fuel size h none = none
finish_take fuel size h (some none) = some (none, h)
finish_take fuel size h (some (some ptr)) =
    Option.map (λ h'. (some ptr, h')) (advance_free fuel ptr (use_block ptr size h))

-- What it does while it holds the semaphore: the offset of the block that it took.
unfoldable pub take_block : ℕ → ℕ → Heap → Option (Option ℕ × Heap)
unfolding find_block finish_take
take_block fuel size h = finish_take fuel size h (find_block fuel size h.lfree h)

-- What `rt_free` does to the block at `at` while it holds the semaphore, `none` where an assertion
-- fails.
unfoldable pub give_block : ℕ → Heap → Option Heap
unfolding plug_holes
give_block at h =
    if not ((h.header at).used == 0) && (h.header at).magic == heap_magic
    then (let h1 = set_magic at heap_magic (set_used at 0 h) in
        plug_holes at (record h1 {
          lfree = if ltb at h.lfree then at else h.lfree;
          used_mem = sub32 h.used_mem (sub32 (h.header at).next at);
        }))
    else none
