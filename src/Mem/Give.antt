-- ===== src/Mem/Give.antt =====
-- `rt_free` of src/mem.c on a well-formed heap.
use rtthread_nano_to_riscv.Prelude.{
  ℕ, ◌+◌, ◌<◌, ◌≤◌, ◌≡◌, ◌≢◌, refl, sym, ◌∙◌, ap, subst, Bool, true, false, ltb, lt→ltb,
  if◌then◌else◌, Bool-cases, inl, inr, List, [], ◌∷◌, ◌++◌, some, arith, if_pos, ℕ_discrete,
}
use rtthread_nano_to_riscv.Mem.{
  Header, Heap, heap_magic, give_block, plug_holes, plug_forward, plug_backward, set_used,
  set_magic, heap_end, header_size, sub32,
}
use rtthread_nano_to_riscv.Mem.Chain.{
  Block, header_of, flag, Chain, Chain-le, Chain-split, Chain-append, Chain-frame, end_of, last_of,
  first_free, has_free, first_free-used, first_free-front, Apart-split, IsHeap,
}
use rtthread_nano_to_riscv.Mem.Find.{first_free-ge}
use rtthread_nano_to_riscv.Mem.Plug.{
  absorb, drop_free, Plugs, plug_forward-Plugs, plug_backward-Plugs,
}
use rtthread_nano_to_riscv.Mem.Freed.{
  freed, absorb-free, freed-Apart, drop_free-none, drop_free-first,
}

-- the heap after the block at `at` is marked, and before `plug_holes`
abbrev pub marked : Heap → ℕ → Heap
marked h at = record (set_magic at heap_magic (set_used at 0 h)) {
  lfree = if ltb at h.lfree then at else h.lfree;
  used_mem = sub32 h.used_mem (sub32 (h.header at).next at);
}

marked-at :
    (h : Heap) (at prev : ℕ) (b : Block)
    → h.header at ≡ header_of prev b
    → (marked h at).header at ≡ header_of prev (freed b)
marked-at h at prev b e = marks h at ∙ (rw e refl)
  where
    marks :
        (h : Heap) (at : ℕ)
        → (marked h at).header at ≡ record (h.header at) { magic = heap_magic; used = 0 }
    marks h at = ground arith

marked-else : (h : Heap) (at o : ℕ) → o ≢ at → (marked h at).header o ≡ h.header o
marked-else h at o ne = ground arith

-- The first part of `rt_free` gets through its assertions, for a block that is used.
give_block-plug_holes :
    (h : Heap) (at prev : ℕ) (b : Block)
    → h.header at ≡ header_of prev b
    → b.used ≡ true
    → at < heap_end h
    → give_block at h ≡ some (plug_backward at (plug_forward at (marked h at)))
unfolding give_block plug_holes
give_block-plug_holes h at prev b e u l =
    rw (ap (λ (v : Header). v.magic) e, ap (λ (v : Header). v.used) e ∙ ap flag u)
      (rw (lt→ltb at (heap_end h) l) (rw (if_pos {C = ℕ} (ℕ_discrete at at) refl 0 1) refl))

higher : (at l f : ℕ) → l ≡ f → f < at → (if ltb at l then at else l) ≡ f
higher at l f e k = ground arith

lower : (at l : ℕ) → at < l → (if ltb at l then at else l) ≡ at
lower at l k = ground arith

skip : (u : Bool) (m n : ℕ) → u ≡ true → (if u then m else n) ≡ m
skip u m n e = ground arith

stop : (u : Bool) (m n : ℕ) → u ≡ false → (if u then m else n) ≡ n
stop u m n e = ground arith

has_free-snoc : (ds : List Block) (d : Block) → d.used ≡ false → has_free (ds ++ d ∷ []) ≡ true
has_free-snoc [] d e = ground arith
has_free-snoc (c ∷ ds) d e = ground (arith, has_free-snoc ds d e)

module _ (h : Heap) (front : List Block) (b : Block) (back : List Block)
    (i : IsHeap h (front ++ b ∷ back)) (u : b.used ≡ true) where
  abbrev at : ℕ
  at = end_of 0 front

  abbrev x : Block
  x = freed b

  parts :
      Chain h.header 0 0 front at × Chain h.header (last_of 0 0 front) at (b ∷ back) (heap_end h)
  parts = Chain-split h.header 0 0 front (b ∷ back) (heap_end h) i.chain

  inside : at + header_size < heap_end h
  inside = omega (arith, parts.1.1, Chain-le h.header at b.next back (heap_end h) parts.1.3)

  abbrev h1 : Heap
  h1 = marked h at

  h1-Chain : Chain h1.header 0 0 (front ++ x ∷ back) (heap_end h)
  h1-Chain =
      Chain-append h1.header 0 0 front (x ∷ back) (heap_end h)
        (Chain-frame h.header h1.header 0 0 front at
          (λ o l m. marked-else h at o (λ e. omega (arith, e, m))) parts.0)
        (
          marked-at h at (last_of 0 0 front) b parts.1.0,
          parts.1.1,
          parts.1.2,
          Chain-frame h.header h1.header at b.next back (heap_end h)
              (λ o l m. marked-else h at o (λ e. omega (arith, e, l, parts.1.1))) parts.1.3,
        )

  end_1 : (h1.header (heap_end h)).used ≡ 1
  end_1 =
      ap (λ (v : Header). v.used) (marked-else h at (heap_end h) (λ e. omega (arith, e, inside)))
      ∙ i.end_used

  -- the lowest free block, which no join moves
  low :
      (h1.lfree ≡ first_free 0 (drop_free front ++ absorb x back))
      × (h1.lfree ≤ at)
      × (has_free front ≡ true → h1.lfree < at)
  low =
      let y = absorb-free x back refl in
      elim (Bool-cases (has_free front)) [
        | inl e ↦
            let k = first_free-front h.header 0 0 front (b ∷ back) e parts.0 in
            let was : h1.lfree ≡ first_free 0 front =
              higher at h.lfree (first_free 0 front) (i.lowest ∙ k.0) k.1 in
            (
              was
                  ∙ sym (drop_free-first 0 front y.0 y.1 y.3 e)
                  ∙ ap (λ (l : List Block). first_free 0 (drop_free front ++ l)) (sym y.2),
              omega (arith, was, k.1),
              λ f. omega (arith, was, k.1),
            )
        | inr e ↦
            let next = first_free-used 0 front (b ∷ back) e in
            let is : h1.lfree ≡ at = lower at h.lfree (
              omega (
                arith,
                i.lowest,
                next ∙ skip b.used (first_free b.next back) at u,
                first_free-ge h.header at b.next back (heap_end h) parts.1.3,
                parts.1.1,
              )) in
            (
              is
                  ∙ sym (stop y.0.used (first_free y.0.next y.1) at y.3)
                  ∙ sym (first_free-used 0 front (y.0 ∷ y.1) e)
                  ∙ ap (λ (l : List Block). first_free 0 (l ++ y.0 ∷ y.1))
                      (sym (drop_free-none front e))
                  ∙ ap (λ (l : List Block). first_free 0 (drop_free front ++ l)) (sym y.2),
              omega (arith, is),
              λ f. cc,
            )
      ]

  abbrev h2 : Heap
  h2 = plug_forward at h1

  abbrev h3 : Heap
  h3 = plug_backward at h2

  forward : Plugs h1 h2 (front ++ absorb x back)
  forward = plug_forward-Plugs h1 front x back refl h1-Chain end_1 low.1

  backward : Plugs h2 h3 (drop_free front ++ absorb x back)
  backward =
      let y = absorb-free x back refl in
      let c1 =
        subst (λ (l : List Block). Chain h2.header 0 0 (front ++ l) (heap_end h)) y.2 forward.0 in
      let c =
        subst (λ (z : ℕ). Chain h2.header 0 0 (front ++ y.0 ∷ y.1) (z + header_size))
          (sym forward.1.size) c1 in
      subst (λ (l : List Block). Plugs h2 h3 (drop_free front ++ l)) (sym y.2)
        (plug_backward-Plugs h2 y.0 y.1 y.3 front c (λ ds d e f.
          omega (arith, forward.1.lfree, low.2 (ap has_free e ∙ has_free-snoc ds d f))))

  gives : give_block at h ≡ some h3
  gives = give_block-plug_holes h at (last_of 0 0 front) b parts.1.0 u (omega (arith, inside))

  h3-IsHeap : IsHeap h3 (drop_free front ++ absorb x back)
  h3-IsHeap =
      let a = Apart-split true front (b ∷ back) i.apart in
      let size : h3.size ≡ h.size = backward.1.size ∙ forward.1.size in
      let base : h3.base ≡ h.base = backward.1.base ∙ forward.1.base in
      let used = backward.1.used (heap_end h) ∙ forward.1.used (heap_end h) ∙ end_1 in
      record {
        chain =
            subst
              (λ (z : ℕ). Chain h3.header 0 0 (drop_free front ++ absorb x back) (z + header_size))
              (sym backward.1.size) backward.0;
        end_used = subst (λ (z : ℕ). (h3.header (z + header_size)).used ≡ 1) (sym size) used;
        width = omega (arith, i.width, size, base);
        aligned = omega (arith, i.aligned, base);
        lowest = backward.1.lfree ∙ forward.1.lfree ∙ low.0;
        apart = freed-Apart front x back b.used refl u a.0 a.1.1;
      }

  -- `rt_free`, holding the semaphore, makes a used block free. It joins the block with the free blocks
  -- next to it, so that no two free blocks touch; the other blocks are as before, and the heap stays
  -- well formed, `lfree` included.
  pub give_block-IsHeap :
      (give_block (end_of 0 front) h
        ≡ some (
            plug_backward
              (end_of 0 front)
              (plug_forward (end_of 0 front) (marked h (end_of 0 front)))))
      × IsHeap
          (plug_backward
            (end_of 0 front)
            (plug_forward (end_of 0 front) (marked h (end_of 0 front))))
          (drop_free front ++ absorb (freed b) back)
      × ((plug_backward
            (end_of 0 front)
            (plug_forward (end_of 0 front) (marked h (end_of 0 front)))).lock
          ≡ h.lock)
  give_block-IsHeap = (gives, h3-IsHeap, backward.1.lock ∙ forward.1.lock)
