-- ===== src/Scheduler/Insert.antt =====
-- `rt_schedule_insert_thread` of src/scheduler.c on a well-formed ready table.
use Prim.Native.Nat.{bit_or}
use mathlib.Core.List.{map-append}
use rtthread_nano_to_riscv.Prelude.{
  ℕ, ◌^◌, ◌<◌, ◌≡◌, refl, true, List, [], ◌∷◌, ◌++◌, map, some, ite, ℕ_discrete, All, All-append,
  arith, if_pos, if_neg, ==_iff, ◌==◌, lt→ltb, Avoids,
}
use rtthread_nano_to_riscv.Prelude.Bits.{
  bit, bit-bit_or, bit-pow_self, bit-pow_ne, bit-le-one, bit_or-lt, pow-lt, upto, upto-lt,
}
use rtthread_nano_to_riscv.Service.Node.{ready, tlist}
use rtthread_nano_to_riscv.Service.Links.{insert_before}
use rtthread_nano_to_riscv.Service.Pointers.{IsAlone, insert_before-IsLinked}
use rtthread_nano_to_riscv.Service.Ring.{
  Ring, Ring-insert_before, Ring-insert_before_frame, Ring-Avoids,
}
use rtthread_nano_to_riscv.Kernel.{Kernel, stat_of, with_stat, stat_ready, priority_max}
use rtthread_nano_to_riscv.Scheduler.{insert_thread}
use rtthread_nano_to_riscv.Scheduler.Queues.{
  Queues, IsQueued, IsReady, ready_bit, put, Avoids-ready, All-frame, IsRunnable,
}

-- The state byte that a thread gets, over every byte.
stat_table : upto 256 (λ s. stat_of (with_stat stat_ready s) == stat_ready) ≡ true
unfolding upto stat_of with_stat
stat_table = refl

pub stat_of-with_stat : (s : ℕ) → s < 256 → stat_of (with_stat stat_ready s) ≡ stat_ready
stat_of-with_stat s h = (==_iff _ _).0 (upto-lt 256 _ s stat_table h)

-- the state after the call
abbrev inserted : ℕ → Kernel → Kernel
inserted t k = record k {
  thread = λ u. record (k.thread u) {
    stat = ite (ℕ_discrete u t) (with_stat stat_ready (k.thread t).stat) (k.thread u).stat;
  };
  links = insert_before (ready (k.thread t).current_priority) (tlist t) k.links;
  ready_group = bit_or k.ready_group (k.thread t).number_mask;
}

insert_thread-inserted :
    (t : ℕ) (k : Kernel)
    → (k.thread t).current_priority < priority_max
    → insert_thread t k ≡ some (tt, inserted t k)
unfolding insert_thread
insert_thread-inserted t k h = rw (lt→ltb _ _ h) refl

-- A thread that may be put on the queue of priority `p`: on no list, with its mask computed.
pub record IsInsertable (k : Kernel) (t p : ℕ) : Type 0 where
  pub in_range : p < priority_max
  pub priority : (k.thread t).current_priority ≡ p
  pub mask : (k.thread t).number_mask ≡ 2 ^ p
  pub byte : (k.thread t).stat < 256
  pub alone : IsAlone k.links (tlist t)

ready_bit-snoc : (ts : List ℕ) (t : ℕ) → ready_bit (ts ++ t ∷ []) ≡ 1
ready_bit-snoc [] t = refl
ready_bit-snoc (u ∷ ts) t = refl

-- the state after the call, for a thread of priority `p`
abbrev pub queue_up : Kernel → ℕ → ℕ → Kernel
queue_up k t p = record k {
  thread = λ u. record (k.thread u) {
    stat = ite (ℕ_discrete u t) (with_stat stat_ready (k.thread t).stat) (k.thread u).stat;
  };
  links = insert_before (ready p) (tlist t) k.links;
  ready_group = bit_or k.ready_group (2 ^ p);
}

module _ (k : Kernel) (q : Queues) (t p : ℕ) (i : IsInsertable k t p) (r : IsReady k q) where
  abbrev q' : Queues
  q' = put p (q p ++ t ∷ []) q

  abbrev k' : Kernel
  k' = queue_up k t p

  pub insert_thread-queue_up : insert_thread t k ≡ some (tt, k')
  insert_thread-queue_up =
      rw (insert_thread-inserted t k (rw i.priority i.in_range)) (rw (i.priority, i.mask))

  ring : (j : ℕ) → j < priority_max → Ring k'.links (ready j) (map tlist (q' j))
  ring j h = elim (ℕ_discrete j p) [
    | yes e ↦
        rw (if_pos (ℕ_discrete j p) e, map-append, e)
          (Ring-insert_before k.links (ready p) (tlist t) r.linked i.alone (λ e. cc)
            (map tlist (q p)) (r.rings p i.in_range))
    | no ne ↦ rw (if_neg (ℕ_discrete j p) ne) (
        Ring-insert_before_frame k.links (ready j) (map tlist (q j)) (r.rings j h) (ready p)
          (tlist t) r.linked i.alone (λ e. cc) (λ e. cc) (λ e. ne (cc)) (Avoids-ready p (q j)))
  ]

  bits : (j : ℕ) → j < priority_max → bit k'.ready_group j ≡ ready_bit (q' j)
  bits j h = elim (ℕ_discrete j p) [
    | yes e ↦
        rw (if_pos (ℕ_discrete j p) e, bit-bit_or, e, bit-pow_self, ready_bit-snoc)
          (omega (arith, bit-le-one k.ready_group p))
    | no ne ↦
        rw (if_neg (ℕ_discrete j p) ne, bit-bit_or, bit-pow_ne p j ne, r.bits j h) (omega arith)
  ]

  new : IsQueued p (k'.thread t)
  new = (i.priority, i.mask)

  off : (j : ℕ) → j < priority_max → Avoids (tlist t) (map tlist (q j))
  off j h =
      Ring-Avoids k.links (ready j) (tlist t) (map tlist (q j)) i.alone (λ e. cc) (r.rings j h)

  others : (j : ℕ) → j < priority_max → All (λ u. IsQueued j (k'.thread u)) (q j)
  others j h =
      All-frame (λ u. IsQueued j (k.thread u)) (λ u. IsQueued j (k'.thread u)) t (λ u ne a. a) (q j)
        (off j h) (r.queued j h)

  queued : (j : ℕ) → j < priority_max → All (λ u. IsQueued j (k'.thread u)) (q' j)
  queued j h = elim (ℕ_discrete j p) [
    | yes e ↦ rw (if_pos (ℕ_discrete j p) e) (
        All-append (λ u. IsQueued j (k'.thread u)) (q p) (t ∷ []) (rw e (others p i.in_range))
          (rw e new, tt))
    | no ne ↦ rw (if_neg (ℕ_discrete j p) ne) (others j h)
  ]

  runnable_others :
      IsRunnable k q
      → (j : ℕ) → j < priority_max
      → All (λ u. stat_of (k'.thread u).stat ≡ stat_ready) (q j)
  runnable_others n j h =
      All-frame (λ u. stat_of (k.thread u).stat ≡ stat_ready)
        (λ u. stat_of (k'.thread u).stat ≡ stat_ready) t
        (λ u ne a. rw (if_neg (ℕ_discrete u t) ne) a) (q j) (off j h) (n.stats j h)

  pub queue_up-IsRunnable : IsRunnable k q → IsRunnable (queue_up k t p) (put p (q p ++ t ∷ []) q)
  queue_up-IsRunnable n = record {
    stats = λ j h. elim (ℕ_discrete j p) [
      | yes e ↦ rw (if_pos (ℕ_discrete j p) e) (
          All-append (λ u. stat_of (k'.thread u).stat ≡ stat_ready) (q p) (t ∷ [])
            (runnable_others n p i.in_range)
            (rw (if_pos (ℕ_discrete t t) refl) (stat_of-with_stat (k.thread t).stat i.byte), tt))
      | no ne ↦ rw (if_neg (ℕ_discrete j p) ne) (runnable_others n j h)
    ];
  }

  pub queue_up-IsReady : IsReady (queue_up k t p) (put p (q p ++ t ∷ []) q)
  queue_up-IsReady = record {
    linked = insert_before-IsLinked k.links (ready p) (tlist t) r.linked i.alone (λ e. cc);
    rings = ring;
    bits = bits;
    width = bit_or-lt 32 k.ready_group (2 ^ p) r.width (pow-lt 32 p i.in_range);
    queued = queued;
  }

  -- `rt_schedule_insert_thread` makes the thread READY and appends it to the queue of its priority. The
  -- other queues keep their threads, the bitmap still says which queues are empty, and if the queued
  -- threads were READY, they are. Interrupts are enabled or not as before.
  pub insert_thread-IsReady :
      IsRunnable k q
      → (insert_thread t k ≡ some (tt, queue_up k t p))
        × IsReady (queue_up k t p) (put p (q p ++ t ∷ []) q)
        × IsRunnable (queue_up k t p) (put p (q p ++ t ∷ []) q)
  insert_thread-IsReady n = (insert_thread-queue_up, queue_up-IsReady, queue_up-IsRunnable n)
