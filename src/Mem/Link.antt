-- ===== src/Mem/Link.antt =====
-- The writes of `rt_malloc` of src/mem.c when it splits a block, header by header.
use rtthread_nano_to_riscv.Prelude.{ℕ, ◌≡◌, ◌≢◌, true, false, ◌==◌, arith}
use rtthread_nano_to_riscv.Mem.{
  Heap, heap_magic, link_rest, header_size, add32, set_magic, set_used,
}

-- The headers after a split, at the block, at the rest, at the block behind, and elsewhere.
module _ (h : Heap) (at p n : ℕ) where
  pub link_rest-block :
      at ≢ p → at ≢ n → (link_rest at p n h).header at ≡ record (h.header at) { used = 1; next = p }
  unfolding link_rest
  link_rest-block np nn = ground arith

  pub link_rest-rest :
      p ≢ at
      → p ≢ n
      → (link_rest at p n h).header p ≡ record { magic = heap_magic; used = 0; next = n; prev = at }
  unfolding link_rest
  link_rest-rest np nn = ground arith

  pub link_rest-behind :
      n ≢ at
      → n ≢ p
      → (n == add32 h.size header_size) ≡ false
      → (link_rest at p n h).header n ≡ record (h.header n) { prev = p }
  unfolding link_rest
  link_rest-behind np nn e = rw e (ground arith)

  pub link_rest-last :
      (o : ℕ)
      → o ≢ at
      → o ≢ p
      → (n == add32 h.size header_size) ≡ true
      → (link_rest at p n h).header o ≡ h.header o
  unfolding link_rest
  link_rest-last o na np e = rw e (ground arith)

  pub link_rest-else : (o : ℕ) → o ≢ at → o ≢ p → o ≢ n → (link_rest at p n h).header o ≡ h.header o
  unfolding link_rest
  link_rest-else o na np nn = ground arith

-- A magic number that is written again.
pub magic_again :
    (h : Heap) (at o : ℕ)
    → (h.header at).magic ≡ heap_magic
    → (set_magic at heap_magic h).header o ≡ h.header o
magic_again h at o m = ground arith

pub used_only :
    (h : Heap) (at : ℕ) → (set_used at 1 h).header at ≡ record (h.header at) { used = 1 }
used_only h at = ground arith

pub link_rest-frame :
    (h : Heap) (at p n : ℕ)
    → ((link_rest at p n h).lfree ≡ h.lfree)
      × ((link_rest at p n h).size ≡ h.size)
      × ((link_rest at p n h).base ≡ h.base)
      × ((link_rest at p n h).lock ≡ h.lock)
unfolding link_rest
link_rest-frame h at p n = ground arith
