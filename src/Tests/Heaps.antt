-- ===== src/Tests/Heaps.antt =====
-- The heap at concrete states.
use rtthread_nano_to_riscv.Prelude.{
  ◌+◌, ◌-◌, ◌^◌, ◌≡◌, ℕ_discrete, refl, true, false, some, List, [], ◌∷◌, ◌++◌, arith, inl,
}
use rtthread_nano_to_riscv.Mem.{
  Heap, heap_init, align, align_down, header_size, use_block, split_block, link_rest,
}
use rtthread_nano_to_riscv.Mem.Chain.{Block, IsHeap}
use rtthread_nano_to_riscv.Mem.Carve.{carve}
use rtthread_nano_to_riscv.Mem.Take.{took}
use rtthread_nano_to_riscv.Mem.Init.{heap_init-IsHeap}
use rtthread_nano_to_riscv.Mem.Calls.{Memory, done, block_size, malloc, free, ◌>>=◌}
use rtthread_nano_to_riscv.Mem.Malloc.{IsUnlocked, unlocked, malloc-IsHeap, malloc-wraps}
use rtthread_nano_to_riscv.Mem.Free.{gave, free-IsHeap}
use rtthread_nano_to_riscv.Mem.RoundTrip.{free-malloc, unlocked-IsUnlocked}
use rtthread_nano_to_riscv.Tests.States.{blank}

-- before `rt_system_heap_init`
abbrev no_heap : Heap
no_heap = record {
  header = λ o. record { magic = 0; used = 0; next = 0; prev = 0 };
  lfree = 0;
  base = 0;
  size = 0;
  used_mem = 0;
  max_mem = 0;
  lock = 0;
}

-- 232 bytes from the address 0x1004 on
abbrev fresh : Heap
fresh = heap_init 0x1001 0x1106 no_heap

abbrev whole : Block
whole = record { used = false; next = 244 }

heap_init-IsHeap_example :
    IsHeap fresh
      (record { used = false; next = align_down 0x1106 - align 0x1001 - 24 + header_size } ∷ [])
unfolding align align_down
heap_init-IsHeap_example =
    heap_init-IsHeap 0x1001 0x1106 no_heap (omega arith) (omega arith) (omega arith)

fresh-IsHeap : IsHeap fresh (whole ∷ [])
unfolding align align_down
fresh-IsHeap = heap_init-IsHeap 0x1001 0x1106 no_heap (omega arith) (omega arith) (omega arith)

fresh_fields : (fresh.base ≡ 0x1004) × (fresh.size ≡ 232) × (fresh.lock ≡ 0)
unfolding heap_init align align_down
fresh_fields = (refl, refl, refl)

-- the heap with its semaphore
abbrev start : Memory
start = record {
  kernel = record blank { sem = λ i. record { value = 1; flag = 0 } };
  heap = fresh;
  bytes = λ a. 0;
}

start-IsUnlocked : IsUnlocked start
unfolding heap_init align align_down
start-IsUnlocked = record {
  sem = record { waiting = record { ring = (refl, (tt, tt)); stats = tt }; busy = inl refl };
  token = omega arith;
  nest = refl;
}

-- a block of 20 bytes, and the rest
abbrev two_blocks : List Block
two_blocks = record { used = true; next = 32 } ∷ record { used = false; next = 244 } ∷ []

malloc-IsHeap_example :
    (malloc 9 18 start
      ≡ done
          (some (fresh.base + 0 + header_size))
          (record start { kernel = unlocked start; heap = took fresh (block_size 18) [] whole [] }))
    × IsHeap (took fresh (block_size 18) [] whole []) (carve (block_size 18) 0 whole ++ [])
unfolding heap_init align align_down block_size
malloc-IsHeap_example =
    malloc-IsHeap start 9 18 [] whole [] start-IsUnlocked fresh-IsHeap (omega arith) (omega arith)
      tt refl (omega arith) (omega arith)

malloc-wraps_example : malloc 9 (2 ^ 32 - 2) start ≡ malloc 9 12 start
unfolding heap_init align align_down
malloc-wraps_example = malloc-wraps 9 (2 ^ 32 - 2) start (omega arith) (omega arith) (omega arith)

-- after the allocation
abbrev busy : Memory
busy = record start { kernel = unlocked start; heap = took fresh (block_size 18) [] whole [] }

busy-IsHeap : IsHeap busy.heap two_blocks
unfolding heap_init align align_down block_size
busy-IsHeap = malloc-IsHeap_example.1

busy-IsUnlocked : IsUnlocked busy
unfolding heap_init align align_down block_size use_block split_block link_rest ℕ_discrete
busy-IsUnlocked = unlocked-IsUnlocked start busy.heap start-IsUnlocked (omega arith) refl

free-IsHeap_example :
    (free 9 (some (busy.heap.base + 0 + header_size)) busy
      ≡ done tt (record busy { kernel = unlocked busy; heap = gave busy.heap 0 }))
    × IsHeap (gave busy.heap 0) (whole ∷ [])
free-IsHeap_example =
    free-IsHeap busy 9 [] (record { used = true; next = 32 }) (whole ∷ []) busy-IsUnlocked
      busy-IsHeap refl

free-malloc_example :
    ((malloc 9 18 >>= λ p. free 9 p) start
      ≡ done tt (record busy { kernel = unlocked busy; heap = gave busy.heap 0 }))
    × IsHeap (gave busy.heap 0) (whole ∷ [])
unfolding heap_init align align_down block_size
free-malloc_example =
    free-malloc start 9 18 [] whole [] start-IsUnlocked (omega arith) fresh-IsHeap (omega arith)
      (omega arith) tt refl (omega arith) (omega arith)
