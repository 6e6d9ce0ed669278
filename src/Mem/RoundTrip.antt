-- ===== src/Mem/RoundTrip.antt =====
-- `rt_free` of what `rt_malloc` of src/mem.c gave.
use rtthread_nano_to_riscv.Prelude.{
  ℕ, ◌+◌, ◌-◌, ◌%◌, ◌^◌, ◌<◌, ◌≤◌, ◌≡◌, refl, sym, ◌∙◌, ap, subst, Bool, true, false, ◌||◌, leb,
  if◌then◌else◌, List, [], ◌∷◌, ◌++◌, some, arith, length, Bool-cases, inl, inr, ℕ_discrete, ite,
}
use rtthread_nano_to_riscv.Ipc.Semaphore.{IsSem, sem_take-IsSem, sem_release-IsSem}
use rtthread_nano_to_riscv.Mem.{Heap, header_size, align}
use rtthread_nano_to_riscv.Mem.Chain.{Block, end_of, IsHeap, Apart, Apart-split, last_used}
use rtthread_nano_to_riscv.Mem.Find.{fits, NoFit}
use rtthread_nano_to_riscv.Mem.Carve.{carve}
use rtthread_nano_to_riscv.Mem.Take.{took, fits-room}
use rtthread_nano_to_riscv.Mem.Plug.{absorb, drop_free}
use rtthread_nano_to_riscv.Mem.Freed.{freed}
use rtthread_nano_to_riscv.Mem.Calls.{Memory, done, block_size, malloc, free, ◌>>=◌}
use rtthread_nano_to_riscv.Mem.Malloc.{IsUnlocked, locked, unlocked, malloc-IsHeap, took-same}
use rtthread_nano_to_riscv.Mem.Free.{gave, free-IsHeap}

cycle :
    (l v : ℕ)
    → 0 < v
    → v < 2 ^ 16
    → 0
      < ite
          (ℕ_discrete l l)
          ((ite (ℕ_discrete l l) (v - 1) v + 1) % 2 ^ 16)
          (ite (ℕ_discrete l l) (v - 1) v)
cycle l v p w = ground arith

-- Once a call put the token back, the next one may take it.
pub unlocked-IsUnlocked :
    (m : Memory) (h : Heap)
    → IsUnlocked m
    → (m.kernel.sem m.heap.lock).value < 2 ^ 16
    → h.lock ≡ m.heap.lock
    → IsUnlocked (record m { kernel = unlocked m; heap = h })
unlocked-IsUnlocked m h av w e =
    let s =
      (sem_release-IsSem (locked m) m.heap.lock
        (sem_take-IsSem m.kernel 0 m.heap.lock 0 [] av.token av.sem).1).1 in
    record {
      sem = subst (λ (l : ℕ). IsSem (unlocked m) l []) (sym e) s;
      token =
          subst (λ (l : ℕ). 0 < ((unlocked m).sem l).value) (sym e)
            (cycle m.heap.lock (m.kernel.sem m.heap.lock).value av.token w);
      nest = av.nest;
    }

either : (u v : Bool) → (u || v) ≡ true → v ≡ false → u ≡ true
either u v a e = ground arith

drop_free-last :
    (u : Bool) (front : List Block) → last_used u front ≡ true → drop_free front ≡ front
drop_free-last u [] e = refl
drop_free-last u (d ∷ []) e = ground arith
drop_free-last u (d ∷ c ∷ ds) e = ap (λ (l : List Block). d ∷ l) (drop_free-last d.used (c ∷ ds) e)

same_block : (b : Block) → b.used ≡ false → freed b ≡ b
same_block b e = rw e refl

absorb-used : (x : Block) (back : List Block) → Apart false back → absorb x back ≡ x ∷ back
absorb-used x [] a = refl
absorb-used x (c ∷ cs) a = go c.used a.0
  where
    go : (u : Bool) → (false || u) ≡ true → (if u then x ∷ c ∷ cs else c ∷ cs) ≡ x ∷ c ∷ cs
    go u e = ground arith

-- The carved block joins again with what was left of it.
carve-absorb :
    (size at : ℕ) (b : Block) (back : List Block)
    → b.used ≡ false
    → Apart false back
    → (c : Block) × (r : List Block) × (carve size at b ++ back ≡ c ∷ r)
      × (c.used ≡ true)
      × (absorb (freed c) r ≡ b ∷ back)
carve-absorb size at b back e a =
    elim (Bool-cases (leb (size + 24) (b.next - (at + header_size)))) [
      | inl big ↦ (
        record { used = true; next = at + header_size + size },
        freed b ∷ back,
        rw big refl,
        refl,
        ap (λ (x : Block). x ∷ back) (same_block b e),
      )
      | inr small ↦ (
        record { used = true; next = b.next },
        back,
        rw small refl,
        refl,
        absorb-used (freed b) back a ∙ ap (λ (x : Block). x ∷ back) (same_block b e),
      )
    ]

module _ (m : Memory) (fuel size : ℕ) (front : List Block) (b : Block) (back : List Block)
    (av : IsUnlocked m) (w : (m.kernel.sem m.heap.lock).value < 2 ^ 16)
    (i : IsHeap m.heap (front ++ b ∷ back)) (pos : 0 < size) (small : align size ≤ m.heap.size)
    (n : NoFit (block_size size) 0 front) (y : fits (block_size size) (end_of 0 front) b ≡ true)
    (l : end_of 0 front < m.heap.size - block_size size)
    (f : length front + length back + 2 < fuel) where
  abbrev between : Memory
  between = record m { kernel = unlocked m; heap = took m.heap (block_size size) front b back }

  abbrev after : Memory
  after = record between { kernel = unlocked between; heap = gave between.heap (end_of 0 front) }

  -- `rt_free` of the address that `rt_malloc` returned puts the heap's blocks back as they were, those
  -- with which the block was joined included.
  pub free-malloc :
      ((malloc fuel size >>= λ p. free fuel p) m ≡ done tt after)
      × IsHeap after.heap (front ++ b ∷ back)
  free-malloc =
      let all = malloc-IsHeap m fuel size front b back av i pos small n y l f in
      let same = took-same m fuel size front b back i n y l f in
      let apart = Apart-split true front (b ∷ back) i.apart in
      let free_b = (fits-room (block_size size) (end_of 0 front) b y).0 in
      let k =
        carve-absorb (block_size size) (end_of 0 front) b back free_b (rw free_b at apart.1.1) in
      let i2 = subst (λ (bs : List Block). IsHeap between.heap (front ++ bs)) k.2 all.1 in
      let av2 = unlocked-IsUnlocked m between.heap av w same.1 in
      let r = free-IsHeap between fuel front k.0 k.1 av2 i2 k.3 in
      let whole : drop_free front ≡ front =
        drop_free-last true front (either (last_used true front) b.used apart.1.0 free_b) in
      (
        rw all.0 (
            subst
              (λ (base : ℕ).
                free fuel (some (base + end_of 0 front + header_size)) between ≡ done tt after)
              same.0 r.0),
        subst (λ (bs : List Block). IsHeap after.heap (bs ++ b ∷ back)) whole
            (subst (λ (bs : List Block). IsHeap after.heap (drop_free front ++ bs)) k.4 r.1),
      )
