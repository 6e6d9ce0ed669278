-- ===== src/Mem/Malloc.antt =====
-- `rt_malloc` of src/mem.c as it is called.
use rtthread_nano_to_riscv.Prelude.{
  not_zero, ℕ, ◌+◌, ◌-◌, ◌%◌, ◌^◌, ◌<◌, ◌≤◌, ◌≡◌, refl, ◌∙◌, ap, Bool, true, false, leb, ltb, ◌==◌,
  List, [], ◌∷◌, ◌++◌, Option, some, arith, length, inl, inr, ◌⊎◌,
}
use rtthread_nano_to_riscv.Kernel.{Kernel}
use rtthread_nano_to_riscv.Ipc.{set_value, sem_release}
use rtthread_nano_to_riscv.Ipc.Semaphore.{IsSem, sem_take-IsSem, sem_release-IsSem}
use rtthread_nano_to_riscv.Mem.{Heap, align, align_down, add32, heap_end, header_size, take_block}
use rtthread_nano_to_riscv.Mem.Chain.{Block, Chain-le, Chain-split, Chain-aligned, end_of, IsHeap}
use rtthread_nano_to_riscv.Mem.Find.{fits, NoFit}
use rtthread_nano_to_riscv.Mem.Carve.{carve}
use rtthread_nano_to_riscv.Mem.Take.{took, take_block-IsHeap, fits-room}
use rtthread_nano_to_riscv.Mem.Calls.{
  Memory, done, taken, released, assert, fault, not_in_interrupt, lock, unlock, block_size,
  block_address, malloc,
}

-- Nobody holds `heap_sem`, and the call is not from an interrupt.
pub record IsUnlocked (m : Memory) : Type 0 where
  pub sem : IsSem m.kernel m.heap.lock []
  pub token : 0 < (m.kernel.sem m.heap.lock).value
  pub nest : m.kernel.interrupt_nest ≡ 0

-- the kernel once the token was taken, and put back
abbrev pub locked : Memory → Kernel
locked m = set_value m.heap.lock ((m.kernel.sem m.heap.lock).value - 1) m.kernel

abbrev pub unlocked : Memory → Kernel
unlocked m = set_value m.heap.lock ((((locked m).sem m.heap.lock).value + 1) % 2 ^ 16) (locked m)

pub not_in_interrupt-IsUnlocked : (m : Memory) → IsUnlocked m → not_in_interrupt m ≡ done tt m
unfolding not_in_interrupt
not_in_interrupt-IsUnlocked m av = ap (λ (n : ℕ). assert (n == 0) m) av.nest

pub lock-IsUnlocked :
    (m : Memory) (fuel : ℕ) → IsUnlocked m → lock fuel m ≡ done tt (record m { kernel = locked m })
unfolding lock
lock-IsUnlocked m fuel av =
    ap (λ r. taken r m) (sem_take-IsSem m.kernel fuel m.heap.lock (2 ^ 32 - 1) [] av.token av.sem).0

-- The lock is released whatever the heap has become in between.
pub unlock-IsUnlocked :
    (m : Memory) (h : Heap)
    → IsUnlocked m
    → h.lock ≡ m.heap.lock
    → unlock (record m { kernel = locked m; heap = h })
      ≡ done tt (record m { kernel = unlocked m; heap = h })
unfolding unlock
unlock-IsUnlocked m h av e =
    ap (λ (s : ℕ). released (sem_release s (locked m)) (record m { kernel = locked m; heap = h })) e
    ∙ ap (λ r. released r (record m { kernel = locked m; heap = h }))
        (sem_release-IsSem (locked m) m.heap.lock
          (sem_take-IsSem m.kernel 0 m.heap.lock 0 [] av.token av.sem).1).0

pub block_size-least : (size : ℕ) → (12 ≤ block_size size) × (block_size size % 4 ≡ 0)
unfolding block_size align align_down
block_size-least size = ground arith

pub block_size-enough : (size : ℕ) → size ≤ 2 ^ 32 - 4 → size ≤ block_size size
unfolding block_size align align_down
block_size-enough size h = ground arith

le_test : (a b : ℕ) → a ≤ b → leb a b ≡ true
le_test a b h = ground arith

not_lt : (a b : ℕ) → b ≤ a → ltb a b ≡ false
not_lt a b h = ground arith

is_zero : (n : ℕ) → n ≡ 0 → (n == 0) ≡ true
is_zero n h = ground arith

block_address_lem :
    (m : Memory) (size at : ℕ)
    → m.heap.base % 4 ≡ 0
    → at % 4 ≡ 0
    → at + header_size + size ≤ heap_end m.heap
    → m.heap.base + m.heap.size + 24 < 2 ^ 32
    → block_address size (some at) m ≡ done (some (m.heap.base + at + header_size)) m
unfolding block_address
block_address_lem m size at b a e w =
    rw
      (le_test (add32 (add32 (m.heap.base + at) header_size) size) (m.heap.base + heap_end m.heap)
        (omega arith))
      (rw (is_zero (add32 (m.heap.base + at) header_size % 4) (omega arith))
        (rw (is_zero ((m.heap.base + at) % 4) (omega arith)) refl))

-- The part of `rt_malloc` from the semaphore on, for the result of the work on the heap.
malloc-locked :
    (m : Memory) (fuel size : ℕ) (block : Option ℕ) (h : Heap)
    → IsUnlocked m
    → 0 < size
    → align size ≤ m.heap.size
    → take_block fuel (block_size size) m.heap ≡ some (block, h)
    → h.lock ≡ m.heap.lock
    → malloc fuel size m
      ≡ block_address (block_size size) block (record m { kernel = unlocked m; heap = h })
unfolding malloc
malloc-locked m fuel size block h av pos small e k = rw (not_zero size pos) (
    rw (not_in_interrupt-IsUnlocked m av) (
      rw (not_lt m.heap.size (align size) small)
        (rw (lock-IsUnlocked m fuel av) (rw e (rw (unlock-IsUnlocked m h av k) refl)))))

-- What `rt_malloc` leaves of the heap's variables.
pub took-same :
    (m : Memory) (fuel size : ℕ) (front : List Block) (b : Block) (back : List Block)
    → IsHeap m.heap (front ++ b ∷ back)
    → NoFit (block_size size) 0 front
    → fits (block_size size) (end_of 0 front) b ≡ true
    → end_of 0 front < m.heap.size - block_size size
    → length front + length back + 2 < fuel
    → ((took m.heap (block_size size) front b back).base ≡ m.heap.base)
      × ((took m.heap (block_size size) front b back).lock ≡ m.heap.lock)
took-same m fuel size front b back i n y l f =
    let least = block_size-least size in
    let t =
      take_block-IsHeap m.heap (block_size size) fuel front b back i (omega arith) least.0 least.1 n
        y l f in
    (t.3, t.4)

module _ (m : Memory) (fuel size : ℕ) (front : List Block) (b : Block) (back : List Block)
    (av : IsUnlocked m) (i : IsHeap m.heap (front ++ b ∷ back)) (pos : 0 < size)
    (small : align size ≤ m.heap.size) (n : NoFit (block_size size) 0 front)
    (y : fits (block_size size) (end_of 0 front) b ≡ true)
    (l : end_of 0 front < m.heap.size - block_size size)
    (f : length front + length back + 2 < fuel) where
  abbrev after : Memory
  after = record m { kernel = unlocked m; heap = took m.heap (block_size size) front b back }

  -- With `heap_sem` free, `rt_malloc` takes the first free block with room for the size, rounded up to
  -- whole words and at least MIN_SIZE, unless it lies within the last bytes of the heap: the blocks in
  -- front of it and behind it stay, and what is left of it becomes a free block if it is large enough.
  -- The heap is well formed again, the token is put back, and the result is the address behind the
  -- header.
  pub malloc-IsHeap :
      (malloc fuel size m ≡ done (some (m.heap.base + end_of 0 front + header_size)) after)
      × IsHeap after.heap (front ++ (carve (block_size size) (end_of 0 front) b ++ back))
  malloc-IsHeap =
      let least = block_size-least size in
      let t =
        take_block-IsHeap m.heap (block_size size) fuel front b back i (omega arith) least.0 least.1
          n y l f in
      let c = Chain-split m.heap.header 0 0 front (b ∷ back) (heap_end m.heap) i.chain in
      let stop = Chain-le m.heap.header (end_of 0 front) b.next back (heap_end m.heap) c.1.3 in
      let room = (fits-room (block_size size) (end_of 0 front) b y).1 in
      (
        malloc-locked m fuel size (some (end_of 0 front))
              (took m.heap (block_size size) front b back) av pos small t.0 t.4
            ∙ block_address_lem after (block_size size) (end_of 0 front)
                (omega (arith, t.3, i.aligned))
                (Chain-aligned m.heap.header 0 0 front (end_of 0 front) refl c.0)
                (omega (arith, t.2, room, stop, c.1.1)) (omega (arith, t.2, t.3, i.width))
            ∙ ap (λ (base : ℕ). done (some (base + end_of 0 front + header_size)) after) t.3,
        t.1,
      )

in_interrupt-cases : (m : Memory) → (not_in_interrupt m ≡ fault) ⊎ (not_in_interrupt m ≡ done tt m)
unfolding not_in_interrupt
in_interrupt-cases m = go (m.kernel.interrupt_nest == 0)
  where
    go : (b : Bool) → (assert b m ≡ fault) ⊎ (assert b m ≡ done tt m)
    go true = inr refl
    go false = inl refl

align-wraps : (size : ℕ) → 2 ^ 32 - 4 < size → size < 2 ^ 32 → align size ≡ 0
unfolding align align_down
align-wraps size h w = omega arith

block_size-wraps : (size : ℕ) → 2 ^ 32 - 4 < size → size < 2 ^ 32 → block_size size ≡ block_size 12
unfolding block_size align align_down
block_size-wraps size h w = ground arith

align_12 : align 12 ≡ 12
unfolding align align_down
align_12 = refl

-- A request of more than 2 ^ 32 - 4 bytes wraps round to nothing when it is aligned, so `rt_malloc`
-- does for it what it does for a request of 12 bytes, in a heap of at least 12 bytes.
pub malloc-wraps :
    (fuel size : ℕ) (m : Memory)
    → 2 ^ 32 - 4 < size
    → size < 2 ^ 32
    → 12 ≤ m.heap.size
    → malloc fuel size m ≡ malloc fuel 12 m
unfolding malloc
malloc-wraps fuel size m h w k =
    rw (block_size-wraps size h w, align-wraps size h w, not_zero size (omega arith), align_12)
      (elim (in_interrupt-cases m) [
        | inl e ↦ rw e refl
        | inr e ↦ rw e (rw (not_lt m.heap.size 12 k, not_lt m.heap.size 0 (omega arith)) refl)
      ])
