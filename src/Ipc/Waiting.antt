-- ===== src/Ipc/Waiting.antt =====
-- The wait list of an IPC object of src/ipc.c, and where `rt_ipc_list_suspend` puts a thread on it.
use mathlib.Core.List.{map-append}
use rtthread_nano_to_riscv.Prelude.{
  ℕ, zero, suc, ◌<◌, ◌≡◌, ◌≢◌, Bool, leb, List, [], ◌∷◌, ◌++◌, map, some, arith, length, Avoids,
  All, All-split, All-append, drop_while, append-nil,
}
use rtthread_nano_to_riscv.Service.Node.{Node, suspended, ready, tlist}
use rtthread_nano_to_riscv.Service.Links.{insert_before}
use rtthread_nano_to_riscv.Service.Pointers.{IsAlone, insert_before-IsLinked}
use rtthread_nano_to_riscv.Service.Seg.{Seg}
use rtthread_nano_to_riscv.Service.Ring.{
  Ring, Ring-insert_before, Ring-insert_before_node, Ring-insert_before_frame,
}
use rtthread_nano_to_riscv.Kernel.{Kernel, stat_of, stat_suspend, priority_max}
use rtthread_nano_to_riscv.Scheduler.Queues.{Queues, IsReady, IsRunnable, not_queued}
use rtthread_nano_to_riscv.Ipc.{find_place}

-- The threads `ws` wait on the IPC object `s`, the next one to be resumed first.
pub record IsWaiting (k : Kernel) (s : ℕ) (ws : List ℕ) : Type 0 where
  pub ring : Ring k.links (suspended s) (map tlist ws)
  pub stats : All (λ u. stat_of (k.thread u).stat ≡ stat_suspend) ws

-- the node in front of which a thread is put, for the threads from there on
abbrev pub place_of : ℕ → List ℕ → Node
place_of s [] = suspended s
place_of s (u ∷ us) = tlist u

-- the threads that the loop goes past, for one of priority `p`
abbrev pub no_less_urgent : Kernel → ℕ → ℕ → Bool
no_less_urgent k p u = leb (k.thread u).current_priority p

pub next_place :
    (k : Kernel) (s : ℕ) (a : Node) (ws : List ℕ)
    → Seg k.links.next a (map tlist ws) (suspended s)
    → k.links.next a ≡ place_of s ws
next_place k s a [] g = g
next_place k s a (u ∷ us) g = g.0

-- With more fuel than there are threads the loop ends, in front of the first one that is less urgent.
pub find_place_lem :
    (k : Kernel) (p s fuel : ℕ) (a : Node) (ws : List ℕ)
    → length ws < fuel
    → Seg k.links.next a (map tlist ws) (suspended s)
    → find_place fuel p (suspended s) (place_of s ws) k
      ≡ some (place_of s (drop_while (no_less_urgent k p) ws))
unfolding find_place
find_place_lem k p s zero a ws f g = absurd (omega arith)
find_place_lem k p s (suc fuel) a [] f g = ground arith
find_place_lem k p s (suc fuel) a (u ∷ us) f g = ground (
  arith,
  next_place k s (tlist u) us g.1,
  find_place_lem k p s fuel (tlist u) us (omega arith) g.1,
)

-- `k` with the thread in front of `place`
abbrev pub put_before : Kernel → Node → ℕ → Kernel
put_before k place t = record k { links = insert_before place (tlist t) k.links }

Avoids-suspended : (s : ℕ) (ts : List ℕ) → Avoids (suspended s) (map tlist ts)
Avoids-suspended s [] = tt
Avoids-suspended s (u ∷ us) = (λ e. cc, Avoids-suspended s us)

-- a thread that is in a state of its own is not the place
place-ne :
    (k : Kernel) (s t : ℕ) (us : List ℕ) → Avoids (tlist t) (map tlist us) → place_of s us ≢ tlist t
place-ne k s t [] o = λ e. cc
place-ne k s t (u ∷ us) o = o.0

module _ (k : Kernel) (q : Queues) (s t : ℕ) (front back : List ℕ) (r : IsReady k q)
    (n : IsRunnable k q) (w : IsWaiting k s (front ++ back)) (al : IsAlone k.links (tlist t))
    (st : stat_of (k.thread t).stat ≡ stat_suspend) (o : Avoids (tlist t) (map tlist back)) where
  abbrev place : Node
  place = place_of s back

  list_with :
      (back : List ℕ)
      → Ring k.links (suspended s) (map tlist (front ++ back))
      → Ring (put_before k (place_of s back) t).links (suspended s) (map tlist (front ++ t ∷ back))
  list_with [] g = rw map-append (
      Ring-insert_before k.links (suspended s) (tlist t) r.linked al (λ e. cc) (map tlist front)
        (rw append-nil at g))
  list_with (u ∷ us) g = rw map-append (
      Ring-insert_before_node k.links (suspended s) (tlist t) r.linked al (λ e. cc)
        (map tlist front) (tlist u) (map tlist us) (rw map-append at g))

  -- The thread is on the wait list, between the two parts.
  pub put_before-IsWaiting : IsWaiting (put_before k place t) s (front ++ t ∷ back)
  put_before-IsWaiting =
      let parts = All-split (λ u. stat_of (k.thread u).stat ≡ stat_suspend) front back w.stats in
      record {
        ring = list_with back w.ring;
        stats =
            All-append (λ u. stat_of (k.thread u).stat ≡ stat_suspend) front (t ∷ back) parts.0
              (st, parts.1);
      }

  off_queues :
      (us : List ℕ)
      → All (λ u. stat_of (k.thread u).stat ≡ stat_suspend) us
      → (j : ℕ) → j < priority_max
      → Avoids (place_of s us) (map tlist (q j))
  off_queues [] a j l = Avoids-suspended s (q j)
  off_queues (u ∷ us) a j l = not_queued k q u n (λ e. omega (arith, a.0)) j l

  head_ne : (us : List ℕ) (j : ℕ) → ready j ≢ place_of s us
  head_ne [] j = λ e. cc
  head_ne (u ∷ us) j = λ e. cc

  -- The ready table is as it was.
  pub put_before-IsReady : IsReady (put_before k place t) q
  put_before-IsReady =
      let parts = All-split (λ u. stat_of (k.thread u).stat ≡ stat_suspend) front back w.stats in
      record {
        linked = insert_before-IsLinked k.links place (tlist t) r.linked al (place-ne k s t back o);
        rings = λ j l.
            Ring-insert_before_frame k.links (ready j) (map tlist (q j)) (r.rings j l) place
              (tlist t) r.linked al (place-ne k s t back o) (λ e. cc) (head_ne back j)
              (off_queues back parts.1 j l);
        bits = r.bits;
        width = r.width;
        queued = r.queued;
      }
