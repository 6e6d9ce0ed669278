-- ===== src/Mem/Chain.antt =====
-- The headers of src/mem.c read as a list of blocks.
use rtthread_nano_to_riscv.Prelude.{
  ℕ, ◌+◌, ◌%◌, ◌^◌, ◌<◌, ◌≤◌, ◌≡◌, refl, sym, ◌∙◌, Bool, true, false, ◌||◌, List, [], ◌∷◌, ◌++◌,
  arith, if◌then◌else◌,
}
use rtthread_nano_to_riscv.Mem.{Header, Heap, heap_magic, header_size, heap_end}

-- A block up to the offset `next`.
pub record Block : Type 0 where
  pub used : Bool
  pub next : ℕ

abbrev pub flag : Bool → ℕ
flag true = 1
flag false = 0

-- the header of a block whose neighbour to the left is at `prev`
abbrev pub header_of : ℕ → Block → Header
header_of prev b = record { magic = heap_magic; used = flag b.used; next = b.next; prev = prev }

-- The blocks from the offset `at` to the offset `stop`, of which the first has `prev` as neighbour.
abbrev pub Chain : (ℕ → Header) → ℕ → ℕ → List Block → ℕ → Type 0
Chain f prev at [] stop = at ≡ stop
Chain f prev at (b ∷ bs) stop =
    (f at ≡ header_of prev b)
    × (at + header_size < b.next)
    × (b.next % 4 ≡ 0)
    × Chain f at b.next bs stop

-- the offset behind the blocks, and the offset of the last of them
abbrev pub end_of : ℕ → List Block → ℕ
end_of at [] = at
end_of at (b ∷ bs) = end_of b.next bs

abbrev pub last_of : ℕ → ℕ → List Block → ℕ
last_of prev at [] = prev
last_of prev at (b ∷ bs) = last_of at b.next bs

pub Chain-le :
    (f : ℕ → Header) (prev at : ℕ) (bs : List Block) (stop : ℕ)
    → Chain f prev at bs stop
    → at ≤ stop
Chain-le f prev at [] stop c = omega arith
Chain-le f prev at (b ∷ bs) stop c = omega (arith, c.1, Chain-le f at b.next bs stop c.3)

pub Chain-aligned :
    (f : ℕ → Header) (prev at : ℕ) (bs : List Block) (stop : ℕ)
    → at % 4 ≡ 0
    → Chain f prev at bs stop
    → stop % 4 ≡ 0
Chain-aligned f prev at [] stop h c = rw (sym c) h
Chain-aligned f prev at (b ∷ bs) stop h c = Chain-aligned f at b.next bs stop c.2 c.3

-- Only the headers of the range matter.
pub Chain-frame :
    (f f' : ℕ → Header) (prev at : ℕ) (bs : List Block) (stop : ℕ)
    → ((o : ℕ) → at ≤ o → o < stop → f' o ≡ f o)
    → Chain f prev at bs stop
    → Chain f' prev at bs stop
Chain-frame f f' prev at [] stop e c = c
Chain-frame f f' prev at (b ∷ bs) stop e c =
    let more : b.next ≤ stop = Chain-le f at b.next bs stop c.3 in
    (
      e at (omega arith) (omega (arith, c.1)) ∙ c.0,
      c.1,
      c.2,
      Chain-frame f f' at b.next bs stop (λ o l u. e o (omega (arith, c.1)) u) c.3,
    )

pub Chain-split :
    (f : ℕ → Header) (prev at : ℕ) (xs ys : List Block) (stop : ℕ)
    → Chain f prev at (xs ++ ys) stop
    → Chain f prev at xs (end_of at xs) × Chain f (last_of prev at xs) (end_of at xs) ys stop
Chain-split f prev at [] ys stop c = (refl, c)
Chain-split f prev at (b ∷ xs) ys stop c =
    let r = Chain-split f at b.next xs ys stop c.3 in ((c.0, c.1, c.2, r.0), r.1)

pub Chain-append :
    (f : ℕ → Header) (prev at : ℕ) (xs ys : List Block) (stop : ℕ)
    → Chain f prev at xs (end_of at xs)
    → Chain f (last_of prev at xs) (end_of at xs) ys stop
    → Chain f prev at (xs ++ ys) stop
Chain-append f prev at [] ys stop c d = d
Chain-append f prev at (b ∷ xs) ys stop c d =
    (c.0, c.1, c.2, Chain-append f at b.next xs ys stop c.3 d)

-- Another left neighbour for the first block.
pub Chain-prev :
    (f f' : ℕ → Header) (prev prev' at : ℕ) (bs : List Block) (stop : ℕ)
    → ((b : Block) → f at ≡ header_of prev b → f' at ≡ header_of prev' b)
    → ((o : ℕ) → at < o → o < stop → f' o ≡ f o)
    → Chain f prev at bs stop
    → Chain f' prev' at bs stop
Chain-prev f f' prev prev' at [] stop e g c = c
Chain-prev f f' prev prev' at (b ∷ bs) stop e g c = (
  e b c.0,
  c.1,
  c.2,
  Chain-frame f f' at b.next bs stop (λ o l u. g o (omega (arith, c.1)) u) c.3,
)

-- the lowest free block, or the end
abbrev pub first_free : ℕ → List Block → ℕ
first_free at [] = at
first_free at (b ∷ bs) = if b.used then first_free b.next bs else at

abbrev pub has_free : List Block → Bool
has_free [] = false
has_free (b ∷ bs) = if b.used then has_free bs else true

pub first_free-used :
    (at : ℕ) (xs ys : List Block)
    → has_free xs ≡ false
    → first_free at (xs ++ ys) ≡ first_free (end_of at xs) ys
first_free-used at [] ys h = refl
first_free-used at (b ∷ xs) ys h = ground (arith, first_free-used b.next xs ys)

-- A free block of the front part is the lowest.
pub first_free-front :
    (f : ℕ → Header) (prev at : ℕ) (xs ys : List Block)
    → has_free xs ≡ true
    → Chain f prev at xs (end_of at xs)
    → (first_free at (xs ++ ys) ≡ first_free at xs) × (first_free at xs < end_of at xs)
first_free-front f prev at [] ys h c = cc
first_free-front f prev at (b ∷ xs) ys h c = ground (
  arith,
  first_free-front f at b.next xs ys,
  c.1,
  c.3,
  Chain-le f at b.next xs (end_of b.next xs),
)

-- No two free blocks stand side by side, for a left neighbour that is used or not.
abbrev pub Apart : Bool → List Block → Type 0
Apart u [] = Unit
Apart u (b ∷ bs) = ((u || b.used) ≡ true) × Apart b.used bs

abbrev pub last_used : Bool → List Block → Bool
last_used u [] = u
last_used u (b ∷ bs) = last_used b.used bs

pub Apart-split :
    (u : Bool) (xs ys : List Block) → Apart u (xs ++ ys) → Apart u xs × Apart (last_used u xs) ys
Apart-split u [] ys a = (tt, a)
Apart-split u (b ∷ xs) ys a = let r = Apart-split b.used xs ys a.1 in ((a.0, r.0), r.1)

pub Apart-append :
    (u : Bool) (xs ys : List Block) → Apart u xs → Apart (last_used u xs) ys → Apart u (xs ++ ys)
Apart-append u [] ys a c = c
Apart-append u (b ∷ xs) ys a c = (a.0, Apart-append b.used xs ys a.1 c)

-- The blocks of the heap: they fill it, free ones do not touch, and `lfree` is the lowest free one.
pub record IsHeap (h : Heap) (bs : List Block) : Type 0 where
  pub chain : Chain h.header 0 0 bs (heap_end h)
  pub end_used : (h.header (heap_end h)).used ≡ 1
  pub width : h.base + h.size + 24 < 2 ^ 32
  pub aligned : h.base % 4 ≡ 0
  pub lowest : h.lfree ≡ first_free 0 bs
  pub apart : Apart true bs
