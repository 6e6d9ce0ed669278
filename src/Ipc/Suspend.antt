-- ===== src/Ipc/Suspend.antt =====
-- `rt_ipc_list_suspend` of src/ipc.c.
use mathlib.Core.List.{map-append}
use rtthread_nano_to_riscv.Prelude.{
  Bool, ℕ, ◌<◌, ◌≡◌, refl, Bool-cases, inl, inr, leb, List, [], ◌∷◌, ◌++◌, map, some, arith, if_neg,
  length, Avoids, Avoids-split, All, All-split, take_while, drop_while,
  take_while-append-drop_while, append-nil, sym, subst, ℕ_discrete, ◌==◌,
}
use rtthread_nano_to_riscv.Prelude.Sorted.{IsSorted, IsSorted-insert}
use rtthread_nano_to_riscv.Service.Node.{Node, suspended, tlist, row, thread_timer, TimerId}
use rtthread_nano_to_riscv.Service.Pointers.{IsLinked, list_remove-IsLinked}
use rtthread_nano_to_riscv.Service.Ring.{Ring, Ring-list_remove_frame}
use rtthread_nano_to_riscv.Kernel.{
  Kernel, stat_of, stat_ready, stat_suspend, priority_max, eok, set_stat, with_stat,
}
use rtthread_nano_to_riscv.Scheduler.Queues.{
  Queues, IsReady, IsRunnable, put, Avoids-state, All-frame,
}
use rtthread_nano_to_riscv.Scheduler.Remove.{take_out}
use rtthread_nano_to_riscv.Scheduler.Frame.{Avoids-row}
use rtthread_nano_to_riscv.Timer.Stop.{stopped, flag_of}
use rtthread_nano_to_riscv.Thread.Suspend.{suspend_out, thread_suspend-IsReady}
use rtthread_nano_to_riscv.Ipc.{ipc_list_suspend, flag_fifo, flag_prio}
use rtthread_nano_to_riscv.Ipc.Waiting.{
  IsWaiting, place_of, no_less_urgent, find_place_lem, put_before, put_before-IsWaiting,
  put_before-IsReady, next_place,
}

-- A wait list is left alone by a timer that is stopped.
pub stopped-Ring :
    (k : Kernel) (t : TimerId) (s : ℕ) (ws : List ℕ)
    → IsLinked k.links
    → Ring k.links (suspended s) (map tlist ws)
    → Ring (stopped k t).links (suspended s) (map tlist ws)
stopped-Ring k t s ws l g = elim (Bool-cases (flag_of k t == 0)) [
  | inl e ↦ rw e g
  | inr e ↦ rw e (
      Ring-list_remove_frame k.links (suspended s) (map tlist ws) g (row t) l (λ e. cc)
        (Avoids-row t ws))
]

module _ (k : Kernel) (q : Queues) (t p : ℕ) (xs ys : List ℕ) (h : p < priority_max)
    (at_t : q p ≡ xs ++ t ∷ ys) (byte : (k.thread t).stat < 256) (r : IsReady k q)
    (n : IsRunnable k q) (s : ℕ) (ws : List ℕ) (w : IsWaiting k s ws) where
  abbrev q' : Queues
  q' = put p (xs ++ ys) q

  abbrev k1 : Kernel
  k1 = suspend_out k t p

  was_ready : stat_of (k.thread t).stat ≡ stat_ready
  was_ready =
      (All-split (λ u. stat_of (k.thread u).stat ≡ stat_ready) xs (t ∷ ys)
        (rw (← at_t) (n.stats p h))).1.0

  apart : Avoids (tlist t) (map tlist ws)
  apart =
      Avoids-state (λ u. stat_of (k.thread u).stat) t stat_suspend
        (λ e. omega (arith, was_ready, e)) ws w.stats

  k1-IsWaiting : IsWaiting k1 s ws
  k1-IsWaiting = record {
    ring =
        stopped-Ring (take_out (set_stat t (with_stat stat_suspend (k.thread t).stat) k) t p)
          (thread_timer t) s ws (list_remove-IsLinked k.links (tlist t) r.linked)
          (Ring-list_remove_frame k.links (suspended s) (map tlist ws) w.ring (tlist t) r.linked
            (λ e. cc) apart);
    stats =
        All-frame (λ u. stat_of (k.thread u).stat ≡ stat_suspend)
          (λ u. stat_of (k1.thread u).stat ≡ stat_suspend) t
          (λ u ne a. rw (if_neg (ℕ_discrete u t) ne) a) ws apart w.stats;
  }

  -- With RT_IPC_FLAG_FIFO a READY thread leaves the ready table and goes to the end of the wait list; the
  -- ready table stays well formed.
  pub ipc_list_suspend-fifo :
      (fuel : ℕ)
      → (ipc_list_suspend fuel (suspended s) t flag_fifo k
          ≡ some (eok, put_before (suspend_out k t p) (suspended s) t))
        × IsReady (put_before (suspend_out k t p) (suspended s) t) (put p (xs ++ ys) q)
        × IsRunnable (put_before (suspend_out k t p) (suspended s) t) (put p (xs ++ ys) q)
        × IsWaiting (put_before (suspend_out k t p) (suspended s) t) s (ws ++ t ∷ [])
  unfolding ipc_list_suspend
  ipc_list_suspend-fifo fuel =
      let out = thread_suspend-IsReady k q t p xs ys h at_t byte r n in
      let all : IsWaiting k1 s (ws ++ []) = rw append-nil k1-IsWaiting in
      (
        rw out.0 refl,
        put_before-IsReady k1 q' s t ws [] out.1 out.2 all out.4 out.3 tt,
        record { stats = out.2.stats },
        put_before-IsWaiting k1 q' s t ws [] out.1 out.2 all out.4 out.3 tt,
      )

  abbrev past : ℕ → Bool
  past = no_less_urgent k (k.thread t).current_priority

  abbrev key : ℕ → ℕ
  key u = (k.thread u).current_priority

  agree : (us : List ℕ) → All (λ u. past u ≡ leb (key u) (key t)) us
  agree [] = tt
  agree (u ∷ us) = (refl, agree us)

  abbrev place : Node
  place = place_of s (drop_while past ws)

  -- With RT_IPC_FLAG_PRIO a READY thread leaves the ready table, which stays well formed, and goes behind
  -- the waiting threads that are no less urgent and in front of the others, so that a wait list in the order of the priorities stays in this order. More fuel than there
  -- are waiting threads is enough.
  pub ipc_list_suspend-prio :
      (fuel : ℕ)
      → length ws < fuel
      → IsSorted key ws
      → (ipc_list_suspend fuel (suspended s) t flag_prio k
          ≡ some (eok, put_before (suspend_out k t p) place t))
        × IsReady (put_before (suspend_out k t p) place t) (put p (xs ++ ys) q)
        × IsRunnable (put_before (suspend_out k t p) place t) (put p (xs ++ ys) q)
        × IsWaiting
            (put_before (suspend_out k t p) place t)
            s
            (take_while past ws ++ t ∷ drop_while past ws)
        × IsSorted key (take_while past ws ++ t ∷ drop_while past ws)
  unfolding ipc_list_suspend
  ipc_list_suspend-prio fuel f sorted =
      let out = thread_suspend-IsReady k q t p xs ys h at_t byte r n in
      let front = take_while past ws in
      let back = drop_while past ws in
      let whole = take_while-append-drop_while past ws in
      let all = subst (IsWaiting k1 s) (sym whole) k1-IsWaiting in
      let off =
        (Avoids-split (tlist t) (map tlist front) (map tlist back) (
          rw (map-append tlist front back) at
            (subst (λ (us : List ℕ). Avoids (tlist t) (map tlist us)) (sym whole) apart))).1 in
      let walk =
        find_place_lem k1 (k.thread t).current_priority s fuel (suspended s) ws f
          k1-IsWaiting.ring.0 in
      let start = next_place k1 s (suspended s) ws k1-IsWaiting.ring.0 in
      (
        rw out.0 (rw start (rw walk refl)),
        put_before-IsReady k1 q' s t front back out.1 out.2 all out.4 out.3 off,
        record { stats = out.2.stats },
        put_before-IsWaiting k1 q' s t front back out.1 out.2 all out.4 out.3 off,
        IsSorted-insert key past t ws (agree ws) sorted,
      )
