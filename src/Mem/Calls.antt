-- ===== src/Mem/Calls.antt =====
-- The calls of src/mem.c, which hold `heap_sem` while they work on the heap.
use rtthread_nano_to_riscv.Prelude.{
  ℕ, ◌+◌, ◌-◌, ◌*◌, ◌%◌, ◌^◌, Bool, true, false, not, Option, none, some, ◌==◌, ltb, leb, ◌&&◌,
  if◌then◌else◌,
}
use rtthread_nano_to_riscv.Kernel.{Kernel}
use rtthread_nano_to_riscv.Ipc.{sem_take, sem_release, Taken, returns, waits}
use rtthread_nano_to_riscv.Kservice.Memory.{Bytes, memcpy, memset}
use rtthread_nano_to_riscv.Mem.{
  Heap, heap_magic, header_size, min_size, add32, sub32, align, heap_end, set_magic, set_used,
  set_next, set_prev, take_block, give_block, plug_holes,
}

-- The kernel, the heap, and the bytes of the blocks by their addresses. The headers, which stand
-- between the blocks, are those of the heap.
pub record Memory : Type 0 where
  pub kernel : Kernel
  pub heap : Heap
  pub bytes : Bytes

-- A call is done; or it is stopped by an assertion; or it waits for `heap_sem` in thread `t`, in front
-- of what it does with the heap.
pub data Outcome (A : Type 0) : Type 0 where
  done : A → Memory → Outcome A
  fault : Outcome A
  blocked : ℕ → Memory → Outcome A

abbrev pub Call : Type 0 → Type 0
Call A = Memory → Outcome A

abbrev pub pure : {A : Type 0} → A → Call A
pure a m = done a m

abbrev pub and_then : {A B : Type 0} → Outcome A → (A → Call B) → Outcome B
and_then (done a m) f = f a m
and_then fault f = fault
and_then (blocked t m) f = blocked t m

infixl 5 ◌>>=◌ ◌>>◌
abbrev pub ◌>>=◌ : {A B : Type 0} → Call A → (A → Call B) → Call B
◌>>=◌ c f m = and_then (c m) f

abbrev pub ◌>>◌ : {A B : Type 0} → Call A → Call B → Call B
c >> d = c >>= λ _. d

abbrev pub get : Call Memory
get m = done m m

abbrev pub assert : Bool → Call (Unit {0})
assert true m = done tt m
assert false m = fault

-- what a part that works on the heap gives
abbrev pub on_heap : {A : Type 0} → Option (A × Heap) → Call A
on_heap none m = fault
on_heap (some (a, h)) m = done a (record m { heap = h })

abbrev pub put_heap : Option Heap → Call (Unit {0})
put_heap none m = fault
put_heap (some h) m = done tt (record m { heap = h })

-- RT_DEBUG_NOT_IN_INTERRUPT
unfoldable pub not_in_interrupt : Call (Unit {0})
not_in_interrupt m = assert (m.kernel.interrupt_nest == 0) m

-- the outcomes of `rt_sem_take` and `rt_sem_release`
abbrev pub taken : Option (Taken × Kernel) → Call (Unit {0})
taken none m = fault
taken (some (returns e, k)) m = done tt (record m { kernel = k })
taken (some (waits t, k)) m = blocked t (record m { kernel = k })

abbrev pub released : {A : Type 0} → Option (A × Kernel) → Call (Unit {0})
released none m = fault
released (some (e, k)) m = done tt (record m { kernel = k })

unfoldable pub lock : ℕ → Call (Unit {0})
lock fuel m = taken (sem_take fuel m.heap.lock (2 ^ 32 - 1) m.kernel) m

unfoldable pub unlock : Call (Unit {0})
unlock m = released (sem_release m.heap.lock m.kernel) m

-- the size that `rt_malloc` looks for
unfoldable pub block_size : ℕ → ℕ
block_size size = if ltb (align size) min_size then min_size else align size

-- The end of `rt_malloc`: its assertions on the block, and the address that it returns.
unfoldable pub block_address : ℕ → Option ℕ → Call (Option ℕ)
block_address size none = pure none
block_address size (some at) = do
  m ← get
  let address = m.heap.base + at
  assert (leb (add32 (add32 address header_size) size) (m.heap.base + heap_end m.heap))
  assert (add32 address header_size % 4 == 0)
  assert (address % 4 == 0)
  pure (some (address + header_size))

unfoldable pub malloc : ℕ → ℕ → Call (Option ℕ)
unfolding not_in_interrupt lock unlock
malloc fuel size = if size == 0 then pure none else (do
  not_in_interrupt
  m ← get
  if ltb m.heap.size (align size) then pure none else (do
    lock fuel
    m ← get
    block ← on_heap (take_block fuel (block_size size) m.heap)
    unlock
    block_address (block_size size) block))

-- Whether an address is from `heap_ptr` up to `heap_end`.
unfoldable pub in_heap : ℕ → Heap → Bool
in_heap address h = leb h.base address && ltb address (h.base + heap_end h)

-- the offset of the header in front of an address
unfoldable pub header_at : ℕ → Heap → ℕ
header_at address h = sub32 (sub32 address h.base) header_size

unfoldable pub free : ℕ → Option ℕ → Call (Unit {0})
unfolding not_in_interrupt lock unlock in_heap header_at
free fuel none = pure tt
free fuel (some rmem) = do
  not_in_interrupt
  assert (rmem % 4 == 0)
  m ← get
  assert (in_heap rmem m.heap)
  lock fuel
  m ← get
  put_heap (give_block (header_at rmem m.heap) m.heap)
  unlock

-- The part of `rt_realloc` that makes the end of the block at `ptr` a free block.
unfoldable pub cut_block : ℕ → ℕ → ℕ → Heap → Option Heap
cut_block ptr size newsize h =
    let ptr2 = add32 (add32 ptr header_size) newsize in
    let next = (h.header ptr).next in
    let h1 = record h { used_mem = sub32 h.used_mem (sub32 size newsize) } in
    let h2 =
      set_prev ptr2 ptr (set_next ptr2 next (set_used ptr2 0 (set_magic ptr2 heap_magic h1))) in
    let h3 = set_next ptr ptr2 h2 in
    plug_holes ptr2 (if next == add32 h.size header_size then h3 else set_prev next ptr2 h3)

-- The end of `rt_realloc`, which moves the `size` bytes of the block to a new one.
unfoldable pub move_block : ℕ → ℕ → ℕ → ℕ → Option ℕ → Call (Option ℕ)
unfolding free
move_block fuel rmem size newsize none = pure none
move_block fuel rmem size newsize (some nmem) = do
  (λ m.
      done tt (record m {
        bytes = memcpy nmem rmem (if ltb size newsize then size else newsize) m.bytes;
      }))
  free fuel (some rmem)
  pure (some nmem)

-- the part of `rt_realloc` for an address `rmem` that is not RT_NULL
unfoldable pub resize : ℕ → ℕ → ℕ → Call (Option ℕ)
unfolding lock unlock in_heap header_at cut_block move_block malloc
resize fuel rmem newsize = do
  lock fuel
  m ← get
  if not (in_heap rmem m.heap) then (do unlock; pure (some rmem)) else (do
    m ← get
    let ptr = header_at rmem m.heap
    let size = sub32 (sub32 (m.heap.header ptr).next ptr) header_size
    if size == newsize
        then (do unlock; pure (some rmem))
        else (if ltb (add32 (add32 newsize header_size) min_size) size
            then (do put_heap (cut_block ptr size newsize m.heap); unlock; pure (some rmem))
            else (do unlock; nmem ← malloc fuel newsize; move_block fuel rmem size newsize nmem)))

unfoldable pub realloc : ℕ → Option ℕ → ℕ → Call (Option ℕ)
unfolding not_in_interrupt free malloc resize
realloc fuel rmem newsize = do
  not_in_interrupt
  m ← get
  if ltb m.heap.size (align newsize)
      then pure none
      else (if align newsize == 0 then (do free fuel rmem; pure none) else elim rmem [
        | none ↦ malloc fuel (align newsize)
        | some a ↦ resize fuel a (align newsize)
      ])

unfoldable pub calloc : ℕ → ℕ → ℕ → Call (Option ℕ)
unfolding malloc
calloc fuel count size = do
  p ← malloc fuel (count * size % 2 ^ 32)
  elim p [
    | none ↦ pure none
    | some a ↦ (do
      (λ m. done tt (record m { bytes = memset a 0 (count * size % 2 ^ 32) m.bytes }))
      pure (some a))
  ]

-- `rt_memory_info`: the total, the used, and the most used memory
unfoldable pub memory_info : Memory → ℕ × ℕ × ℕ
memory_info m = (m.heap.size, m.heap.used_mem, m.heap.max_mem)
