-- ===== src/Mem/Init.antt =====
-- `rt_system_heap_init` of src/mem.c.
use rtthread_nano_to_riscv.Prelude.{
  ℕ, ◌+◌, ◌-◌, ◌*◌, ◌%◌, ◌^◌, ◌<◌, ◌≤◌, ◌≡◌, refl, true, false, ◌&&◌, leb, ltb, [], ◌∷◌, arith,
}
use rtthread_nano_to_riscv.Mem.{
  Heap, heap_magic, heap_init, align, align_down, header_size, add32, set_magic, set_used, set_next,
  set_prev,
}
use rtthread_nano_to_riscv.Mem.Chain.{header_of, IsHeap}

-- The writes to the first and to the last header.
abbrev start_of : ℕ → ℕ → Heap → Heap
start_of begin size h = set_used 0 0 (
    set_prev 0 0 (
      set_next 0 (size + header_size)
        (set_magic 0 heap_magic (record h { base = begin; size = size }))))

abbrev fresh_heap : ℕ → ℕ → Heap → Heap
fresh_heap begin size h =
    record (set_prev (size + header_size) (size + header_size) (
      set_next (size + header_size) (size + header_size) (
        set_used (size + header_size) 1
          (set_magic (size + header_size) heap_magic (start_of begin size h))))) { lfree = 0 }

fresh_heap-start :
    (begin size : ℕ) (h : Heap)
    → (fresh_heap begin size h).header 0
      ≡ header_of 0 (record { used = false; next = size + header_size })
fresh_heap-start begin size h = ground arith

fresh_heap-end :
    (begin size : ℕ) (h : Heap) → ((fresh_heap begin size h).header (size + header_size)).used ≡ 1
fresh_heap-end begin size h = ground arith

aligned_sizes :
    (begin end : ℕ)
    → begin ≤ 2 ^ 32 - 4
    → end < 2 ^ 32
    → (align begin % 4 ≡ 0) × (align_down end % 4 ≡ 0) × (align_down end < 2 ^ 32)
unfolding align align_down
aligned_sizes begin end b e = omega arith

room_test : (b e : ℕ) → b + 24 < e → (ltb (2 * header_size) e && leb b (e - 2 * header_size)) ≡ true
room_test b e h = ground arith

-- With room for more than the two headers between the addresses, which are rounded inwards to whole
-- words, the heap is one free block, and well formed.
pub heap_init-IsHeap :
    (begin end : ℕ) (h : Heap)
    → begin ≤ 2 ^ 32 - 4
    → end < 2 ^ 32
    → align begin + 24 < align_down end
    → IsHeap
        (heap_init begin end h)
        (record { used = false; next = align_down end - align begin - 24 + header_size } ∷ [])
unfolding heap_init
heap_init-IsHeap begin end h b e room =
    let a = aligned_sizes begin end b e in
    rw (room_test (align begin) (align_down end) room) (
      rw (exact (align begin) (align_down end) room a.2) (record {
        chain = (
          fresh_heap-start (align begin) (align_down end - align begin - 24) h,
          omega arith,
          omega (arith, a.0, a.1),
          refl,
        );
        end_used = fresh_heap-end (align begin) (align_down end - align begin - 24) h;
        width = omega (arith, a.2);
        aligned = a.0;
        lowest = refl;
        apart = (refl, tt);
      }))
  where
    exact :
        (b e : ℕ)
        → b + 24 < e
        → e < 2 ^ 32
        → add32 (e - b - 2 * header_size) header_size ≡ e - b - 24 + header_size
    exact b e h w = omega arith
