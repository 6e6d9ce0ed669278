-- ===== src/Ipc/Event/Waking.antt =====
-- `rt_event_send` of src/ipc.c and the threads that wait.
use Prim.Native.Nat.{bit_and, bit_or}
use rtthread_nano_to_riscv.Prelude.{
  not_zero, ℕ, zero, suc, ◌<◌, ◌≡◌, refl, sym, subst, Bool, true, false, if_pos, if_neg, ℕ_discrete,
  some, List, [], ◌∷◌, ◌++◌, map, length, All, arith,
}
use rtthread_nano_to_riscv.Service.Node.{Node, node_eq, suspended, tlist}
use rtthread_nano_to_riscv.Service.Seg.{Seg}
use rtthread_nano_to_riscv.Service.Ring.{list_isempty_lem}
use rtthread_nano_to_riscv.Kernel.{Kernel, Thread, pure, ◌>>◌, eok, complement}
use rtthread_nano_to_riscv.Scheduler.{schedule, thread_entry}
use rtthread_nano_to_riscv.Scheduler.Queues.{Queues, IsReady, IsRunnable, put, All-frame}
use rtthread_nano_to_riscv.Thread.{thread_resume}
use rtthread_nano_to_riscv.Thread.Resume.{IsSuspended, resume_out, thread_resume-IsReady}
use rtthread_nano_to_riscv.Ipc.Waiting.{IsWaiting, place_of, next_place}
use rtthread_nano_to_riscv.Ipc.Resume.{resume_out-IsWaiting}
use rtthread_nano_to_riscv.Ipc.Event.{
  flag_clear, has, is_met, kept_set, set_set, set_event_set, visit, send_loop, event_send,
}

-- The thread goes on waiting when the event set is `set`.
abbrev pub Misses : ℕ → Thread → Type 0
Misses set th = is_met th.event_info th.event_set set ≡ false

-- the loop past threads that go on waiting
send_loop-Misses :
    (k : Kernel) (i fuel : ℕ) (a : Node) (us : List ℕ) (need : Bool)
    → length us < fuel
    → Seg k.links.next a (map tlist us) (suspended i)
    → All (λ u. Misses (k.event i).set (k.thread u)) us
    → send_loop fuel i (place_of i us) need k ≡ some (need, k)
unfolding send_loop thread_entry node_eq
send_loop-Misses k i zero a us need f g m = absurd (omega arith)
send_loop-Misses k i (suc fuel) a [] need f g m = ground arith
send_loop-Misses k i (suc fuel) a (u ∷ us) need f g m = rw m.0 (
    rw (next_place k i (tlist u) us g.1)
      (send_loop-Misses k i fuel (tlist u) us need (omega arith) g.1 m.1))

-- where nobody waits
pub event_send-nobody :
    (k : Kernel) (i set fuel : ℕ)
    → 0 < set
    → IsWaiting k i []
    → event_send fuel i set k ≡ some (eok, set_set i (bit_or (k.event i).set set) k)
unfolding event_send
event_send-nobody k i set fuel h w =
    rw (not_zero set h) (rw (list_isempty_lem k.links (suspended i) [] w.ring) refl)

-- With no thread waiting for what there is then, `rt_event_send` adds the events and wakes nobody, given
-- more fuel than there are threads.
pub event_send-Misses :
    (k : Kernel) (i set fuel : ℕ) (us : List ℕ)
    → 0 < set
    → length us < fuel
    → IsWaiting k i us
    → All (λ u. Misses (bit_or (k.event i).set set) (k.thread u)) us
    → event_send fuel i set k ≡ some (eok, set_set i (bit_or (k.event i).set set) k)
unfolding event_send
event_send-Misses k i set fuel [] h f w m = event_send-nobody k i set fuel h w
event_send-Misses k i set fuel (u ∷ us) h f w m =
    let k1 : Kernel = record (set_set i (bit_or (k.event i).set set) k) { irq = false } in
    let there = if_pos (ℕ_discrete i i) refl (bit_or (k.event i).set set) (k.event i).set in
    let past =
      send_loop-Misses k1 i fuel (suspended i) (u ∷ us) false f w.ring.0
        (subst (λ s. All (λ u. Misses s (k.thread u)) (u ∷ us)) (sym there) m) in
    rw (not_zero set h) (
      rw (list_isempty_lem k.links (suspended i) (map tlist (u ∷ us)) w.ring)
        (rw w.ring.0.0 (rw past refl)))

-- A thread takes the events that it waits for and that are there.
kept_set_lem :
    (option want set : ℕ)
    → is_met option want set ≡ true
    → kept_set option want set ≡ bit_and want set
unfolding is_met kept_set
kept_set_lem option want set e = ground arith

module _ (k : Kernel) (q : Queues) (i set u p : ℕ) (us : List ℕ) (sus : IsSuspended k u p)
    (r : IsReady k q) (n : IsRunnable k q) (w : IsWaiting k i (u ∷ us)) where
  -- the events there are then, those that the thread takes, and those that are left
  abbrev pub sent : ℕ
  sent = bit_or (k.event i).set set

  abbrev pub kept : ℕ
  kept = bit_and (k.thread u).event_set sent

  abbrev pub left : ℕ
  left = bit_and sent (complement kept)

  -- the state in which `rt_schedule` is called
  abbrev pub marked : Kernel
  marked = set_set i left (set_event_set u kept (set_set i sent k))

  abbrev pub woken_out : Kernel
  woken_out = resume_out marked u p

  abbrev k1 : Kernel
  k1 = record (set_set i sent k) { irq = false }

  abbrev k2 : Kernel
  k2 = record marked { irq = false }

  there : (k1.event i).set ≡ sent
  there = if_pos (ℕ_discrete i i) refl sent (k.event i).set

  visits :
      is_met (k.thread u).event_info (k.thread u).event_set sent ≡ true
      → has (k.thread u).event_info flag_clear ≡ true
      → thread_resume u k2 ≡ some (eok, resume_out k2 u p)
      → visit i u k1 ≡ some (true, resume_out k2 u p)
  unfolding visit
  visits met clear out = rw there (
      rw met (
        rw (kept_set_lem (k.thread u).event_info (k.thread u).event_set sent met)
          (rw clear (rw out refl))))

  k2-IsSuspended : IsSuspended k2 u p
  k2-IsSuspended = record {
    in_range = sus.in_range;
    priority = sus.priority;
    mask = sus.mask;
    byte = sus.byte;
    stat = sus.stat;
  }

  k2-IsReady : IsReady k2 q
  k2-IsReady = record {
    linked = r.linked;
    rings = r.rings;
    bits = r.bits;
    width = r.width;
    queued = r.queued;
  }

  rest : IsWaiting (resume_out k2 u p) i us
  rest =
      resume_out-IsWaiting k2 q i u p us k2-IsSuspended k2-IsReady (record { stats = n.stats })
        (record { ring = w.ring; stats = w.stats })

  left_there : ((resume_out k2 u p).event i).set ≡ left
  left_there = if_pos (ℕ_discrete i i) refl left _

  misses :
      All (λ v. Misses left (k.thread v)) us
      → All (λ v. Misses left ((resume_out k2 u p).thread v)) us
  misses m =
      All-frame (λ v. Misses left (k.thread v)) (λ v. Misses left ((resume_out k2 u p).thread v)) u
        (λ v ne a. rw (if_neg (ℕ_discrete v u) ne) a) us w.ring.1.1.0 m

  loops :
      (fuel : ℕ)
      → length us < fuel
      → visit i u k1 ≡ some (true, resume_out k2 u p)
      → All (λ v. Misses left (k.thread v)) us
      → send_loop (suc fuel) i (tlist u) false k1 ≡ some (true, resume_out k2 u p)
  unfolding send_loop thread_entry node_eq
  loops fuel f visited m =
      let past = send_loop-Misses (resume_out k2 u p) i fuel (suspended i) us true f rest.ring.0 (
        subst (λ s. All (λ v. Misses s ((resume_out k2 u p).thread v)) us) (sym left_there)
          (misses m)) in
      rw visited (rw (next_place k i (tlist u) us w.ring.0.1) past)

  -- A thread that waits first, has what it waits for after `rt_event_send`, and gave RT_EVENT_FLAG_CLEAR,
  -- becomes READY with the events of its set that are there, and these are cleared. If none of the others
  -- has what it waits for then, they go on waiting in their order; the scheduler chooses again, and
  -- the ready table stays well formed.
  pub event_send-wakes :
      (fuel : ℕ)
      → 0 < set
      → suc (length us) < fuel
      → is_met (k.thread u).event_info (k.thread u).event_set sent ≡ true
      → has (k.thread u).event_info flag_clear ≡ true
      → All (λ v. Misses left (k.thread v)) us
      → (event_send fuel i set k ≡ (schedule >> pure eok) woken_out)
        × ((woken_out.event i).set ≡ left)
        × ((woken_out.thread u).event_set ≡ kept)
        × IsReady woken_out (put p (q p ++ u ∷ []) q)
        × IsRunnable woken_out (put p (q p ++ u ∷ []) q)
        × IsWaiting woken_out i us
  unfolding event_send
  event_send-wakes (suc fuel) h f met clear m =
      let out =
        thread_resume-IsReady k2 q u p k2-IsSuspended k2-IsReady (record { stats = n.stats }) in
      let run = loops fuel (omega arith) (visits met clear out.0) m in
      let o = out.1 in
      (
        rw (not_zero set h) (
            rw (list_isempty_lem k.links (suspended i) (map tlist (u ∷ us)) w.ring)
              (rw w.ring.0.0 (rw run refl))),
        left_there,
        if_pos (ℕ_discrete u u) refl kept (k.thread u).event_set,
        record {
          linked = o.linked;
          rings = o.rings;
          bits = o.bits;
          width = o.width;
          queued = o.queued;
        },
        record { stats = out.2.stats },
        record { ring = rest.ring; stats = rest.stats },
      )
  event_send-wakes zero h f met clear m = absurd (omega arith)
