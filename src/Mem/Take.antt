-- ===== src/Mem/Take.antt =====
-- What `rt_malloc` of src/mem.c does to the blocks of the heap.
use rtthread_nano_to_riscv.Prelude.{
  ℕ, ◌+◌, ◌-◌, ◌%◌, ◌<◌, ◌≤◌, ◌≡◌, refl, sym, ◌∙◌, Bool, true, false, leb, ◌==◌, Bool-cases, inl,
  inr, ◌⊎◌, ap, subst, ==_iff, List, [], ◌∷◌, ◌++◌, some, none, arith, length,
}
use rtthread_nano_to_riscv.Mem.{
  Heap, take_block, finish_take, find_block, use_block, next_free, advance_free, heap_end,
  header_size,
}
use rtthread_nano_to_riscv.Mem.Chain.{
  Block, Chain, Chain-le, Chain-split, Chain-append, Chain-frame, Chain-aligned, end_of, last_of,
  first_free, has_free, first_free-used, first_free-front, Apart, Apart-split, Apart-append,
  last_used, IsHeap,
}
use rtthread_nano_to_riscv.Mem.Find.{fits, NoFit, find_free-pass, find_free-stop, next_free_lem}
use rtthread_nano_to_riscv.Mem.Carve.{carve, IsCarved, use_block-IsCarved}

pub Apart-true : (u : Bool) (bs : List Block) → Apart u bs → Apart true bs
Apart-true u [] a = tt
Apart-true u (b ∷ bs) a = (refl, a.1)

Apart-carve :
    (size at : ℕ) (u : Bool) (b : Block) (back : List Block)
    → b.used ≡ false
    → Apart u (b ∷ back)
    → Apart u (carve size at b ++ back)
Apart-carve size at u b back e a =
    elim (Bool-cases (leb (size + 24) (b.next - (at + header_size)))) [
      | inl big ↦ rw big (ground arith, (refl, rw e at a.1))
      | inr small ↦ rw small (ground arith, Apart-true b.used back a.1)
    ]

length-carve :
    (size at : ℕ) (b : Block) (back : List Block)
    → length (carve size at b ++ back) ≤ length back + 2
length-carve size at b back = elim (Bool-cases (leb (size + 24) (b.next - (at + header_size)))) [
  | inl big ↦ rw big (omega arith)
  | inr small ↦ rw small (omega arith)
]

pub fits-room :
    (size at : ℕ) (b : Block)
    → fits size at b ≡ true
    → (b.used ≡ false) × (size ≤ b.next - (at + header_size))
fits-room size at b y = ground arith

advance_free_lem :
    (h : Heap) (fuel at l : ℕ)
    → ((at == h.lfree) ≡ true → next_free fuel h.lfree h ≡ some l)
    → ((at == h.lfree) ≡ false → h.lfree ≡ l)
    → advance_free fuel at h ≡ some (record h { lfree = l })
unfolding advance_free
advance_free_lem h fuel at l a c = elim (Bool-cases (at == h.lfree)) [
  | inl e ↦ rw e (rw (a e) refl)
  | inr e ↦ rw e (rw (← c e) refl)
]

ne_self : (a b : ℕ) → (a == b) ≡ false → b ≡ a → ⊥
ne_self a b e q = ground arith

-- the heap after `rt_malloc` took the block `b` behind `front`
abbrev pub took : Heap → ℕ → List Block → Block → List Block → Heap
took h size front b back = record (use_block (end_of 0 front) size h) {
  lfree = first_free 0 (front ++ (carve size (end_of 0 front) b ++ back));
}

module _ (h : Heap) (size fuel : ℕ) (front : List Block) (b : Block) (back : List Block)
    (i : IsHeap h (front ++ b ∷ back)) (s : size ≤ h.size) (least : 12 ≤ size) (fine : size % 4 ≡ 0)
    (n : NoFit size 0 front) (y : fits size (end_of 0 front) b ≡ true)
    (l : end_of 0 front < h.size - size) (f : length front + length back + 2 < fuel) where
  abbrev at : ℕ
  at = end_of 0 front

  abbrev new : List Block
  new = carve size at b ++ back

  parts :
      Chain h.header 0 0 front at × Chain h.header (last_of 0 0 front) at (b ∷ back) (heap_end h)
  parts = Chain-split h.header 0 0 front (b ∷ back) (heap_end h) i.chain

  used : IsCarved h (use_block at size h) size (last_of 0 0 front) at b back
  used =
      use_block-IsCarved h size (last_of 0 0 front) at b parts.1.0 parts.1.1
        (omega (arith, i.width)) (Chain-le h.header at b.next back (heap_end h) parts.1.3) s least
        fine (Chain-aligned h.header 0 0 front at refl parts.0) parts.1.2 back parts.1.3 i.end_used
        (fits-room size at b y).1

  abbrev taken : Heap
  taken = took h size front b back

  found : find_block fuel size h.lfree h ≡ some (some at)
  found =
      subst (λ (o : ℕ). find_block fuel size o h ≡ some (some at)) (sym i.lowest)
        (find_free-pass h size s (omega (arith, i.width)) fuel 0 0 front b back (heap_end h)
          (omega arith) i.chain (omega arith) n y l)

  abbrev h' : Heap
  h' = use_block at size h

  -- where the lowest free block was and is
  low : h'.lfree ≡ first_free 0 (front ++ b ∷ back)
  low = used.same.0 ∙ i.lowest

  low_cases :
      ((has_free front ≡ false) × (h'.lfree ≡ at))
      ⊎ ((has_free front ≡ true) × (h'.lfree ≡ first_free 0 front) × (first_free 0 front < at))
  low_cases = elim (Bool-cases (has_free front)) [
    | inl e ↦
        let k = first_free-front h.header 0 0 front (b ∷ back) e parts.0 in inr (e, low ∙ k.0, k.1)
    | inr e ↦
        inl (e, low ∙ first_free-used 0 front (b ∷ back) e ∙ (rw (fits-room size at b y).0 refl))
  ]

  moves : (at == h'.lfree) ≡ true → next_free fuel h'.lfree h' ≡ some (first_free 0 (front ++ new))
  moves e = elim low_cases [
    | inl k ↦
        subst (λ (o : ℕ). next_free fuel o h' ≡ some (first_free 0 (front ++ new))) (sym k.1)
          (next_free_lem h' fuel (last_of 0 0 front) at new
              (omega (arith, length-carve size at b back)) (rw used.same.1 used.end_used)
              (rw used.same.1 used.chain)
            ∙ ap some (sym (first_free-used 0 front new k.0)))
    | inr k ↦ absurd (omega (arith, (==_iff _ _).0 e, k.1, k.2))
  ]

  stays : (at == h'.lfree) ≡ false → h'.lfree ≡ first_free 0 (front ++ new)
  stays e = elim low_cases [
    | inl k ↦ absurd (ne_self at h'.lfree e k.1)
    | inr k ↦ k.1 ∙ sym (first_free-front h.header 0 0 front new k.0 parts.0).0
  ]

  advances : advance_free fuel at (use_block at size h) ≡ some taken
  advances = advance_free_lem h' fuel at (first_free 0 (front ++ new)) moves stays

  taken-IsHeap : IsHeap taken (front ++ new)
  taken-IsHeap =
      let a = Apart-split true front (b ∷ back) i.apart in
      record {
        chain = rw used.same.1 (
            Chain-append taken.header 0 0 front new (heap_end h)
              (Chain-frame h.header taken.header 0 0 front at (λ o p q. used.front o q) parts.0)
              used.chain);
        end_used = rw used.same.1 used.end_used;
        width = rw (used.same.1, used.same.2) i.width;
        aligned = rw used.same.2 i.aligned;
        lowest = refl;
        apart =
            Apart-append true front new a.0
              (Apart-carve size at (last_used true front) b back (fits-room size at b y).0 a.1);
      }

  -- `rt_malloc`, holding the semaphore, takes the first free block with room for the aligned size, if it
  -- does not lie within the last `size` bytes. It splits off what is left of the block if a block fits
  -- there; all other blocks are as before, and the heap stays well formed, `lfree` included. More fuel
  -- than there are blocks is enough.
  pub take_block-IsHeap :
      (take_block fuel size h ≡ some (some (end_of 0 front), taken))
      × IsHeap taken (front ++ (carve size (end_of 0 front) b ++ back))
      × (taken.size ≡ h.size)
      × (taken.base ≡ h.base)
      × (taken.lock ≡ h.lock)
  unfolding take_block finish_take
  take_block-IsHeap =
      (rw found (rw advances refl), taken-IsHeap, used.same.1, used.same.2, used.same.3)

-- With no room in front of the last `size` bytes of the heap `rt_malloc` finds nothing and changes
-- nothing, whatever blocks lie behind.
pub take_block-none :
    (h : Heap) (size fuel : ℕ) (front back : List Block)
    → IsHeap h (front ++ back)
    → size ≤ h.size
    → NoFit size 0 front
    → h.size - size ≤ end_of 0 front
    → length front < fuel
    → take_block fuel size h ≡ some (none, h)
unfolding take_block finish_take
take_block-none h size fuel front back i s n l f =
    rw
      (subst (λ (o : ℕ). find_block fuel size o h ≡ some none) (sym i.lowest)
        (find_free-stop h size s (omega (arith, i.width)) fuel 0 0 front back (heap_end h)
          (omega arith) i.chain f n l))
      refl
