-- ===== src/Timer/Order.antt =====
-- The order of the timer list of src/timer.c by due ticks, which wrap round.
use mathlib.Core.List.{map-append}
use rtthread_nano_to_riscv.Prelude.{
  ℕ, zero, suc, ◌+◌, ◌%◌, ◌^◌, ◌<◌, ◌≡◌, ◌≢◌, Bool, leb, List, [], ◌∷◌, ◌++◌, map, some, arith,
  append-nil, if_neg, sym, subst, ap, Bool-cases, inl, inr, length, Avoids, take_while, drop_while,
  take_while-append-drop_while,
}
use rtthread_nano_to_riscv.Service.Node.{Node, timers, row, TimerId}
use rtthread_nano_to_riscv.Service.Links.{Links, insert_after, insert_before}
use rtthread_nano_to_riscv.Service.Pointers.{IsLinked, IsAlone, insert_after-eq-insert_before}
use rtthread_nano_to_riscv.Service.Seg.{Seg}
use rtthread_nano_to_riscv.Service.Ring.{
  Ring, Ring-Avoids, Ring-insert_before, Ring-insert_before_node,
}
use rtthread_nano_to_riscv.Kernel.{Kernel}
use rtthread_nano_to_riscv.Timer.{half_tick_max, tick_sub, goes_past, find_row, insert_timer}

-- A due tick lies less than half the range after the tick `b`.
pub record InWindow (b due : ℕ) : Type 0 where
  pub word : due < 2 ^ 32
  pub near : tick_sub due b < half_tick_max

-- Inside the window the loop goes past exactly the timers that are due no later than the new one.
pub goes_past_lem :
    (b other due : ℕ)
    → b < 2 ^ 32
    → InWindow b other
    → InWindow b due
    → goes_past other due ≡ leb (tick_sub other b) (tick_sub due b)
unfolding goes_past
goes_past_lem b other due h o d = ground (arith, o.word, o.near, d.word, d.near)

-- `rt_timer_list[0]`, or the node of a timer
abbrev pub IsTimerNode : Node → Type 0
IsTimerNode timers = Unit
IsTimerNode (row t) = Unit
IsTimerNode _ = ⊥

abbrev first : List TimerId → Node
first [] = timers
first (t ∷ ts) = row t

-- the timers that the loop goes past, for a new one due at `due`
abbrev pub past : Kernel → ℕ → TimerId → Bool
past k due t = goes_past (k.timer t).timeout_tick due

module _ (k : Kernel) (due : ℕ) (n : Node) (w : IsLinked k.links) where
  inner : (h : Node) (t : TimerId) → k.links.next h ≡ row t → h ≢ k.links.prev timers
  inner h t e last = ground (arith, w.next_prev timers, ap k.links.next last, e)

  -- The loop ends behind the timers that it goes past, if it has more fuel than there are timers.
  find_row_lem :
      (fuel : ℕ) (h : Node) (ts : List TimerId)
      → length ts < fuel
      → h ≢ n
      → IsTimerNode h
      → Avoids n (map row ts)
      → Seg k.links.next h (map row ts) timers
      → (l : Node) × (find_row fuel due h k ≡ some l)
        × (k.links.next l ≡ first (drop_while (past k due) ts))
        × (l ≢ n)
        × IsTimerNode l
  unfolding find_row
  find_row_lem zero h ts f hn tn o p = absurd (omega arith)
  find_row_lem (suc fuel) h [] f hn tn o p = (h, ground (arith, w.prev_next h), p, hn, tn)
  find_row_lem (suc fuel) h (t ∷ ts) f hn tn o p =
      let more = find_row_lem fuel (row t) ts (omega arith) o.0 tt o.1 p.1 in
      elim (Bool-cases (past k due t)) [
        | inl e ↦
            (more.0, rw (if_neg _ (inner h t p.0), p.0, e, p.0) more.1, rw e more.2, more.3, more.4)
        | inr e ↦ (h, rw (if_neg _ (inner h t p.0), p.0, e), rw e p.0, hn, tn)
      ]

-- The list with `t` put behind the timers that are due no later than `due`, and in front of the rest.
abbrev pub insert_due : (TimerId → Bool) → TimerId → List TimerId → List TimerId
insert_due past t ts = take_while past ts ++ t ∷ drop_while past ts

Avoids-timers : (ts : List TimerId) → Avoids timers (map row ts)
Avoids-timers [] = tt
Avoids-timers (t ∷ ts) = (λ e. cc, Avoids-timers ts)

module _ (s : Links) (t : TimerId) (w : IsLinked s) (al : IsAlone s (row t)) where
  place_at :
      (l : Node) (front back : List TimerId)
      → Ring s timers (map row (front ++ back))
      → s.next l ≡ first back
      → Ring (insert_before (s.next l) (row t) s) timers (map row (front ++ t ∷ back))
  place_at l front [] r e =
      rw (e, map-append)
        (Ring-insert_before s timers (row t) w al (λ e. cc) (map row front) (rw append-nil at r))
  place_at l front (u ∷ back) r e =
      rw (e, map-append)
        (Ring-insert_before_node s timers (row t) w al (λ e. cc) (map row front) (row u)
          (map row back) (rw map-append at r))

-- the state after the insertion behind `l`
abbrev pub behind : Kernel → TimerId → Node → Kernel
behind k t l = record k {
  random_nr = (k.random_nr + 1) % 2 ^ 32;
  links = insert_after l (row t) k.links;
}

module _ (fuel : ℕ) (k : Kernel) (t : TimerId) (ts : List TimerId) (w : IsLinked k.links)
    (al : IsAlone k.links (row t)) (r : Ring k.links timers (map row ts))
    (f : length ts < fuel) where
  abbrev due : ℕ
  due = (k.timer t).timeout_tick

  -- The insertion ends, and puts the timer behind those that are due no later.
  pub insert_timer_lem :
      (l : Node) × (insert_timer fuel t k ≡ some (tt, behind k t l))
      × Ring (behind k t l).links timers (map row (insert_due (past k due) t ts))
      × (l ≢ row t)
      × IsTimerNode l
  unfolding insert_timer
  insert_timer_lem =
      let o = Ring-Avoids k.links timers (row t) (map row ts) al (λ e. cc) r in
      let at = find_row_lem k due (row t) w fuel timers ts f (λ e. cc) tt o r.0 in
      let same = insert_after-eq-insert_before k.links at.0 (row t) w al at.3 in
      let whole = sym (take_while-append-drop_while (past k due) ts) in
      let split = subst (λ (xs : List TimerId). Ring k.links timers (map row xs)) whole r in
      (
        at.0,
        rw at.1,
        rw same (
            place_at k.links t w al at.0 (take_while (past k due) ts) (drop_while (past k due) ts)
              split at.2),
        at.3,
        at.4,
      )
