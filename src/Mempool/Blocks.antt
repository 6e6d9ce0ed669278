-- ===== src/Mempool/Blocks.antt =====
-- The free blocks of a memory pool, and what `rt_mp_alloc` and `rt_mp_free` do with them.
use rtthread_nano_to_riscv.Prelude.{
  ℕ, suc, ◌+◌, ◌-◌, ◌%◌, ◌^◌, ◌<◌, ◌≡◌, refl, ap, ◌∙◌, false, ◌==◌, lt→ltb, ℕ_discrete, if_pos,
  if_neg, some, none, List, [], ◌∷◌, ◌++◌, length, arith, Avoids, Distinct,
}
use rtthread_nano_to_riscv.Service.Node.{suspended}
use rtthread_nano_to_riscv.Service.Ring.{Ring}
use rtthread_nano_to_riscv.Kernel.{
  Kernel, BlockWord, null, next_block, of_pool, set_error, eok, etimeout,
}
use rtthread_nano_to_riscv.Scheduler.{schedule, thread_entry}
use rtthread_nano_to_riscv.Scheduler.Queues.{Queues, IsReady, IsRunnable, put}
use rtthread_nano_to_riscv.Thread.Resume.{IsSuspended, resume_out, thread_resume-IsReady}
use rtthread_nano_to_riscv.Ipc.Waiting.{IsWaiting}
use rtthread_nano_to_riscv.Ipc.Resume.{resume_out-IsWaiting}
use rtthread_nano_to_riscv.Mempool.{
  set_list, set_free_count, set_word, set_waiting_count, returns, mp_alloc, alloc_wake, mp_free,
}

-- the link to the first of some blocks
abbrev pub head_of : List ℕ → BlockWord
head_of [] = null
head_of (b ∷ bs) = next_block b

-- Each block links to the next one, and the last one to RT_NULL.
abbrev pub Linked : (ℕ → BlockWord) → List ℕ → Type 0
Linked word [] = Unit
Linked word (b ∷ bs) = (word b ≡ head_of bs) × Linked word bs

-- The free blocks of the pool are `free`, the next one to be allocated first.
pub record IsPool (k : Kernel) (i : ℕ) (free : List ℕ) : Type 0 where
  pub list : (k.mempool i).block_list ≡ head_of free
  pub linked : Linked k.block_word free
  pub distinct : Distinct free
  pub count : (k.mempool i).block_free_count ≡ length free
  pub word : length free < 2 ^ 32

-- A write to another block's word leaves the links.
pub Linked-frame :
    (at : ℕ) (v : BlockWord) (k : Kernel) (bs : List ℕ)
    → Avoids at bs
    → Linked k.block_word bs
    → Linked (set_word at v k).block_word bs
Linked-frame at v k [] o l = tt
Linked-frame at v k (b ∷ bs) o l =
    (if_neg (ℕ_discrete b at) o.0 v (k.block_word b) ∙ l.0, Linked-frame at v k bs o.1 l.1)

-- the states after an allocation of the block `b`, and after its release
abbrev pub alloc_out : Kernel → ℕ → ℕ → Kernel
alloc_out k i b = set_word b (of_pool i) (
    set_list i (k.block_word b)
      (set_free_count i (((k.mempool i).block_free_count + 2 ^ 32 - 1) % 2 ^ 32) k))

abbrev pub free_out : Kernel → ℕ → ℕ → Kernel
free_out k i b = set_list i (next_block b) (
    set_word b (k.mempool i).block_list
      (set_free_count i (((k.mempool i).block_free_count + 1) % 2 ^ 32) k))

free_out-IsPool :
    (k : Kernel) (i b : ℕ) (bs : List ℕ)
    → IsPool k i bs
    → Avoids b bs
    → suc (length bs) < 2 ^ 32
    → IsPool (free_out k i b) i (b ∷ bs)
free_out-IsPool k i b bs p o w =
    let here = ℕ_discrete i i in
    record {
      list = if_pos here refl (next_block b) (k.mempool i).block_list;
      linked = (
        if_pos (ℕ_discrete b b) refl (k.mempool i).block_list (k.block_word b) ∙ p.list,
        Linked-frame b (k.mempool i).block_list k bs o p.linked,
      );
      distinct = (o, p.distinct);
      count = if_pos here refl _ (k.mempool i).block_free_count ∙ omega (arith, p.count, w);
      word = w;
    }

-- With free blocks `rt_mp_alloc` takes the first one off the list, whatever the time to wait, and marks it with its pool; the other
-- blocks stay in their order.
pub mp_alloc-IsPool :
    (k : Kernel) (fuel i b time : ℕ) (bs : List ℕ)
    → IsPool k i (b ∷ bs)
    → (mp_alloc fuel i time k ≡ some (returns (some (b + 4)), alloc_out k i b))
      × IsPool (alloc_out k i b) i bs
      × ((alloc_out k i b).block_word b ≡ of_pool i)
      × Avoids b bs
unfolding mp_alloc
mp_alloc-IsPool k fuel i b time bs p =
    let some_free = not_zero (k.mempool i).block_free_count (length bs) p.count in
    let here = ℕ_discrete i i in
    (
      rw some_free (rw p.list refl),
      record {
        list = if_pos here refl (k.block_word b) (k.mempool i).block_list ∙ p.linked.0;
        linked = Linked-frame b (of_pool i) k bs p.distinct.0 p.linked.1;
        distinct = p.distinct.1;
        count = if_pos here refl _ (k.mempool i).block_free_count ∙ omega (arith, p.count, p.word);
        word = omega (arith, p.word);
      },
      if_pos (ℕ_discrete b b) refl (of_pool i) (k.block_word b),
      p.distinct.0,
    )
  where
    not_zero : (n l : ℕ) → n ≡ suc l → (n == 0) ≡ false
    not_zero n l e = ground arith

-- Without a free block and without time to wait, the call returns RT_NULL and changes nothing.
pub mp_alloc-empty :
    (k : Kernel) (fuel i : ℕ) → IsPool k i [] → mp_alloc fuel i 0 k ≡ some (returns none, k)
unfolding mp_alloc
mp_alloc-empty k fuel i p = rw p.count refl

-- `rt_mp_free` of a block that is in use, in a pool whose count of waiting threads is 0, makes it the first free block.
pub mp_free-IsPool :
    (k : Kernel) (i b : ℕ) (bs : List ℕ)
    → IsPool k i bs
    → k.block_word b ≡ of_pool i
    → Avoids b bs
    → suc (length bs) < 2 ^ 32
    → (k.mempool i).suspend_thread_count ≡ 0
    → (mp_free (b + 4) k ≡ some (tt, free_out k i b)) × IsPool (free_out k i b) i (b ∷ bs)
unfolding mp_free
mp_free-IsPool k i b bs p u o w z =
    let back : b + 4 - 4 ≡ b = omega arith in
    (rw back (rw u (rw z refl)), free_out-IsPool k i b bs p o w)

-- In a pool whose count of waiting threads is 0, a block that is allocated and released at once is the
-- first free block again, and the free blocks are as before.
pub mp_free-mp_alloc :
    (k : Kernel) (fuel i b time : ℕ) (bs : List ℕ)
    → IsPool k i (b ∷ bs)
    → (k.mempool i).suspend_thread_count ≡ 0
    → (mp_alloc fuel i time k ≡ some (returns (some (b + 4)), alloc_out k i b))
      × (mp_free (b + 4) (alloc_out k i b) ≡ some (tt, free_out (alloc_out k i b) i b))
      × IsPool (free_out (alloc_out k i b) i b) i (b ∷ bs)
mp_free-mp_alloc k fuel i b time bs p z =
    let a = mp_alloc-IsPool k fuel i b time bs p in
    let f = mp_free-IsPool (alloc_out k i b) i b bs a.1 a.2 a.3 p.word z in (a.0, f.0, f.1)

-- A thread whose wait in `rt_mp_alloc` timed out returns RT_NULL without counting itself off the waiting
-- threads. When nobody waits any more, the next `rt_mp_free` takes the head of the empty list for a
-- thread.
pub alloc_wake-mp_free :
    (k : Kernel) (fuel i t b time start : ℕ)
    → (k.thread t).error ≡ etimeout
    → 0 < (k.mempool i).suspend_thread_count
    → Ring k.links (suspended i) []
    → k.block_word b ≡ of_pool i
    → (alloc_wake fuel i t time start k ≡ some (returns none, k)) × (mp_free (b + 4) k ≡ none)
unfolding alloc_wake mp_free thread_entry
alloc_wake-mp_free k fuel i t b time start e c r u =
    let back : b + 4 - 4 ≡ b = omega arith in
    (rw e refl, rw back (rw u (rw (lt→ltb 0 _ c) (rw r.0 refl))))

module _ (k : Kernel) (q : Queues) (i b u p : ℕ) (bs us : List ℕ) (sus : IsSuspended k u p)
    (r : IsReady k q) (n : IsRunnable k q) (w : IsWaiting k i (u ∷ us)) where
  -- the state after the thread was resumed
  abbrev pub freed_out : Kernel
  freed_out = resume_out (set_error u eok (free_out k i b)) u p

  -- With threads on the wait list, and all of them counted, `rt_mp_free` of a block in use makes
  -- the first one on the list READY and counts it off. The others stay in their order, the block is the
  -- first free one, the scheduler chooses again, and the ready table stays well formed.
  pub mp_free-resumes :
      IsPool k i bs
      → k.block_word b ≡ of_pool i
      → Avoids b bs
      → suc (length bs) < 2 ^ 32
      → (k.mempool i).suspend_thread_count ≡ suc (length us)
      → suc (length us) < 2 ^ 32
      → (mp_free (b + 4) k ≡ schedule (set_waiting_count i (length us) freed_out))
        × IsPool (set_waiting_count i (length us) freed_out) i (b ∷ bs)
        × IsReady (set_waiting_count i (length us) freed_out) (put p (q p ++ u ∷ []) q)
        × IsWaiting (set_waiting_count i (length us) freed_out) i us
  unfolding mp_free thread_entry
  mp_free-resumes pool in_use o room z short =
      let back : b + 4 - 4 ≡ b = omega arith in
      let k1 : Kernel = record (set_error u eok (free_out k i b)) { irq = false } in
      let s1 : IsSuspended k1 u p = record {
        in_range = sus.in_range;
        priority = sus.priority;
        mask = sus.mask;
        byte = sus.byte;
        stat = sus.stat;
      } in
      let r1 : IsReady k1 q = record {
        linked = r.linked;
        rings = r.rings;
        bits = r.bits;
        width = r.width;
        queued = r.queued;
      } in
      let n1 : IsRunnable k1 q = record { stats = n.stats } in
      let out = thread_resume-IsReady k1 q u p s1 r1 n1 in
      let rest =
        resume_out-IsWaiting k1 q i u p us s1 r1 n1 (record { ring = w.ring; stats = w.stats }) in
      let f = free_out-IsPool k i b bs pool o room in
      let o1 = out.1 in
      let positive = lt→ltb 0 (k.mempool i).suspend_thread_count (omega (arith, z)) in
      let fewer : ((k.mempool i).suspend_thread_count + 2 ^ 32 - 1) % 2 ^ 32 ≡ length us =
        omega (arith, z, short) in
      (
        rw back (
            rw in_use (
              rw positive (
                rw w.ring.0.0
                  (rw out.0 (ap (λ n. schedule (set_waiting_count i n freed_out)) fewer))))),
        record {
          list = f.list;
          linked = f.linked;
          distinct = f.distinct;
          count = f.count;
          word = f.word;
        },
        record {
          linked = o1.linked;
          rings = o1.rings;
          bits = o1.bits;
          width = o1.width;
          queued = o1.queued;
        },
        record { ring = rest.ring; stats = rest.stats },
      )
