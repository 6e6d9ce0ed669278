-- ===== src/Mem/Free.antt =====
-- `rt_free` of src/mem.c as it is called.
use rtthread_nano_to_riscv.Prelude.{
  ℕ, ◌+◌, ◌%◌, ◌^◌, ◌<◌, ◌≡◌, refl, true, ◌==◌, List, ◌∷◌, ◌++◌, some, arith,
}
use rtthread_nano_to_riscv.Mem.{Heap, plug_forward, plug_backward, heap_end, header_size}
use rtthread_nano_to_riscv.Mem.Chain.{Block, Chain-le, Chain-split, Chain-aligned, end_of, IsHeap}
use rtthread_nano_to_riscv.Mem.Plug.{absorb, drop_free}
use rtthread_nano_to_riscv.Mem.Freed.{freed}
use rtthread_nano_to_riscv.Mem.Give.{marked, give_block-IsHeap}
use rtthread_nano_to_riscv.Mem.Calls.{Memory, done, in_heap, header_at, free}
use rtthread_nano_to_riscv.Mem.Malloc.{
  IsUnlocked, unlocked, not_in_interrupt-IsUnlocked, lock-IsUnlocked, unlock-IsUnlocked,
}

-- the heap after `rt_free` of the block at `at`
abbrev pub gave : Heap → ℕ → Heap
gave h at = plug_backward at (plug_forward at (marked h at))

is_zero : (n : ℕ) → n ≡ 0 → (n == 0) ≡ true
is_zero n h = ground arith

in_heap_lem :
    (h : Heap) (at : ℕ)
    → at + header_size < heap_end h
    → in_heap (h.base + at + header_size) h ≡ true
unfolding in_heap
in_heap_lem h at l = ground arith

header_at_lem :
    (h : Heap) (at : ℕ)
    → at + header_size < heap_end h
    → h.base + h.size + 24 < 2 ^ 32
    → header_at (h.base + at + header_size) h ≡ at
unfolding header_at
header_at_lem h at l w = omega arith

module _ (m : Memory) (fuel : ℕ) (front : List Block) (b : Block) (back : List Block)
    (av : IsUnlocked m) (i : IsHeap m.heap (front ++ b ∷ back)) (u : b.used ≡ true) where
  abbrev at : ℕ
  at = end_of 0 front

  parts : (at + header_size < heap_end m.heap) × (at % 4 ≡ 0)
  parts =
      let c = Chain-split m.heap.header 0 0 front (b ∷ back) (heap_end m.heap) i.chain in
      let stop = Chain-le m.heap.header at b.next back (heap_end m.heap) c.1.3 in
      (omega (arith, stop, c.1.1), Chain-aligned m.heap.header 0 0 front at refl c.0)

  -- With `heap_sem` free, `rt_free` of the address of a used block makes the block free and joins it
  -- with the free blocks next to it; the other blocks stay, the heap is well formed again, and the token
  -- is put back.
  pub free-IsHeap :
      (free fuel (some (m.heap.base + end_of 0 front + header_size)) m
        ≡ done tt (record m { kernel = unlocked m; heap = gave m.heap (end_of 0 front) }))
      × IsHeap (gave m.heap (end_of 0 front)) (drop_free front ++ absorb (freed b) back)
  unfolding free
  free-IsHeap =
      let g = give_block-IsHeap m.heap front b back i u in
      (
        rw (not_in_interrupt-IsUnlocked m av) (
            rw (is_zero ((m.heap.base + at + header_size) % 4) (omega (arith, parts.1, i.aligned)))
              (rw (in_heap_lem m.heap at parts.0) (
                rw (lock-IsUnlocked m fuel av) (
                  rw (header_at_lem m.heap at parts.0 i.width)
                    (rw g.0 (rw (unlock-IsUnlocked m (gave m.heap at) av g.2) refl)))))),
        g.1,
      )
