-- ===== src/Scheduler/Queues.antt =====
-- The well-formed ready table of src/scheduler.c: what the pointers and the bitmap stand for.
use rtthread_nano_to_riscv.Prelude.{
  ℕ, ◌^◌, ◌<◌, ◌≡◌, ◌≢◌, subst, List, [], ◌∷◌, map, ite, ℕ_discrete, All, Avoids,
}
use rtthread_nano_to_riscv.Prelude.Bits.{bit}
use rtthread_nano_to_riscv.Service.Node.{ready, tlist}
use rtthread_nano_to_riscv.Service.Pointers.{IsLinked}
use rtthread_nano_to_riscv.Service.Ring.{Ring}
use rtthread_nano_to_riscv.Kernel.{Kernel, Thread, stat_of, stat_ready, priority_max}

-- the threads of each priority, the next to run first
abbrev pub Queues : Type 0
Queues = ℕ → List ℕ

-- A thread on the queue of priority `p`.
abbrev pub IsQueued : ℕ → Thread → Type 0
IsQueued p th = (th.current_priority ≡ p) × (th.number_mask ≡ 2 ^ p)

abbrev pub ready_bit : List ℕ → ℕ
ready_bit [] = 0
ready_bit (t ∷ ts) = 1

-- Each queue is a ring of threads of its priority, and its bit says whether it is empty.
pub record IsReady (k : Kernel) (q : Queues) : Type 0 where
  pub linked : IsLinked k.links
  pub rings : (p : ℕ) → p < priority_max → Ring k.links (ready p) (map tlist (q p))
  pub bits : (p : ℕ) → p < priority_max → bit k.ready_group p ≡ ready_bit (q p)
  pub width : k.ready_group < 2 ^ 32
  pub queued : (p : ℕ) → p < priority_max → All (λ t. IsQueued p (k.thread t)) (q p)

-- the queues with the one at `p` replaced
abbrev pub put : ℕ → List ℕ → Queues → Queues
put p ts q i = ite (ℕ_discrete i p) ts (q i)

pub Avoids-ready : (p : ℕ) (ts : List ℕ) → Avoids (ready p) (map tlist ts)
Avoids-ready p [] = tt
Avoids-ready p (t ∷ ts) = (λ e. cc, Avoids-ready p ts)

-- What holds of the listed threads holds when only another thread changes.
pub All-frame :
    (P Q : ℕ → Type 0) (t : ℕ)
    → ((u : ℕ) → u ≢ t → P u → Q u)
    → (ts : List ℕ) → Avoids (tlist t) (map tlist ts)
    → All P ts
    → All Q ts
All-frame P Q t h [] o a = tt
All-frame P Q t h (u ∷ ts) o a = (h u (λ e. o.0 (rw e)) a.0, All-frame P Q t h ts o.1 a.1)

-- Every thread on a queue is READY.
pub record IsRunnable (k : Kernel) (q : Queues) : Type 0 where
  pub stats : (p : ℕ) → p < priority_max → All (λ t. stat_of (k.thread t).stat ≡ stat_ready) (q p)

-- So a thread in another state is on no queue.
pub Avoids-state :
    (f : ℕ → ℕ) (t c : ℕ)
    → f t ≢ c
    → (ts : List ℕ) → All (λ u. f u ≡ c) ts
    → Avoids (tlist t) (map tlist ts)
Avoids-state f t c ne [] a = tt
Avoids-state f t c ne (u ∷ ts) a =
    (λ e. ne (subst (λ (v : ℕ). f v ≡ c) (tlist_inj u t e) a.0), Avoids-state f t c ne ts a.1)
  where
    tlist_inj : (u t : ℕ) → tlist u ≡ tlist t → u ≡ t
    tlist_inj u t e = cc

pub not_queued :
    (k : Kernel) (q : Queues) (t : ℕ)
    → IsRunnable k q
    → stat_of (k.thread t).stat ≢ stat_ready
    → (p : ℕ) → p < priority_max
    → Avoids (tlist t) (map tlist (q p))
not_queued k q t r ne p h =
    Avoids-state (λ u. stat_of (k.thread u).stat) t stat_ready ne (q p) (r.stats p h)
