-- ===== src/Timer/Start.antt =====
-- `rt_timer_start` and `rt_timer_stop` of src/timer.c on a well-formed timer list.
use Prim.Native.Nat.{bit_and, bit_or}
use mathlib.Core.List.{map-append}
use rtthread_nano_to_riscv.Prelude.{
  ℕ, ◌+◌, ◌%◌, ◌^◌, ◌<◌, ◌≡◌, refl, Bool, false, leb, lt→ltb, List, [], ◌∷◌, ◌++◌, map, some,
  if_pos, if_neg, inl, inr, ◌⊎◌, length, All, All-append, All-split, Avoids, take_while-congr,
}
use rtthread_nano_to_riscv.Prelude.Sorted.{
  IsSorted, IsSorted-insert, IsSorted-delete, All-insert, All-congr, IsSorted-congr,
}
use rtthread_nano_to_riscv.Service.Node.{Node, timers, row, TimerId, timer_eq}
use rtthread_nano_to_riscv.Service.Links.{list_remove}
use rtthread_nano_to_riscv.Service.Pointers.{
  IsLinked, IsAlone, insert_after-IsLinked, list_remove-IsLinked, list_remove-IsAlone,
}
use rtthread_nano_to_riscv.Service.Ring.{
  Ring, Ring-Avoids, Ring-list_remove, Ring-list_remove_frame,
}
use rtthread_nano_to_riscv.Kernel.{Kernel, set_flag, set_timeout_tick, eok}
use rtthread_nano_to_riscv.Timer.{
  half_tick_max, tick_sub, timer_start, not_activated, flag_activated,
}
use rtthread_nano_to_riscv.Timer.Order.{
  InWindow, goes_past_lem, past, insert_due, insert_timer_lem, behind, IsTimerNode,
}

-- The ticks from `b` on that a timer is due after.
abbrev pub delay : Kernel → ℕ → TimerId → ℕ
delay k b t = tick_sub (k.timer t).timeout_tick b

-- The list holds the timers `ts`, the next one due first, all of them in the window from `b` on.
pub record IsTimers (k : Kernel) (b : ℕ) (ts : List TimerId) : Type 0 where
  pub linked : IsLinked k.links
  pub ring : Ring k.links timers (map row ts)
  pub base : b < 2 ^ 32
  pub window : All (λ t. InWindow b (k.timer t).timeout_tick) ts
  pub sorted : IsSorted (delay k b) ts

-- `rest` is the list without `t`, which is on it or on no list.
abbrev pub Without : Kernel → TimerId → List TimerId → List TimerId → Type 0
Without k t ts rest =
    (IsAlone k.links (row t) × (rest ≡ ts))
    ⊎ ((xs : List TimerId) × (ys : List TimerId) × (ts ≡ xs ++ t ∷ ys) × (rest ≡ xs ++ ys))

module _ (k : Kernel) (b : ℕ) (t : TimerId) (ts : List TimerId) (i : IsTimers k b ts) where
  -- Taking a timer off the list leaves a well-formed list of the others.
  pub removed :
      (rest : List TimerId)
      → Without k t ts rest
      → IsTimers (record k { links = list_remove (row t) k.links }) b rest
  removed rest (inl (al, e)) = record {
    linked = list_remove-IsLinked k.links (row t) i.linked;
    ring = rw e (
        Ring-list_remove_frame k.links timers (map row ts) i.ring (row t) i.linked (λ e. cc)
          (Ring-Avoids k.links timers (row t) (map row ts) al (λ e. cc) i.ring));
    base = i.base;
    window = rw e i.window;
    sorted = rw e i.sorted;
  }
  removed rest (inr (xs, ys, e, e')) =
      let w = All-split (λ t. InWindow b (k.timer t).timeout_tick) xs (t ∷ ys) (rw e at i.window) in
      record {
        linked = list_remove-IsLinked k.links (row t) i.linked;
        ring =
            rw (e', map-append)
              (Ring-list_remove k.links timers (row t) i.linked (map row xs) (map row ys)
                (rw map-append at (rw e at i.ring)));
        base = i.base;
        window = rw e' (All-append (λ t. InWindow b (k.timer t).timeout_tick) xs ys w.0 w.1.1);
        sorted = rw e' (IsSorted-delete (delay k b) xs t ys (rw e at i.sorted));
      }

  -- The timer is on no list afterwards.
  pub removed-Avoids : (rest : List TimerId) → Without k t ts rest → Avoids (row t) (map row rest)
  removed-Avoids rest w =
      let r = removed rest w in
      Ring-Avoids (list_remove (row t) k.links) timers (row t) (map row rest)
        (list_remove-IsAlone k.links (row t) i.linked) (λ e. cc) r.ring

-- A write to the due tick of `t` leaves the other timers' due ticks.
same_due :
    (k : Kernel) (t : TimerId) (due : ℕ) (ts : List TimerId)
    → Avoids (row t) (map row ts)
    → All (λ u. ((set_timeout_tick t due k).timer u).timeout_tick ≡ (k.timer u).timeout_tick) ts
same_due k t due [] o = tt
same_due k t due (u ∷ ts) o =
    (rw (if_neg (timer_eq u t) (λ e. o.0 (rw e))), same_due k t due ts o.1)

-- the due tick that `rt_timer_start` sets
abbrev pub due_of : Kernel → TimerId → ℕ
due_of k t = (k.tick + (k.timer t).init_tick) % 2 ^ 32

-- the state in which `rt_timer_start` walks the list
abbrev pub prepared : Kernel → TimerId → Kernel
prepared k t = set_timeout_tick t (due_of k t) (
    set_flag t (bit_and (k.timer t).flag not_activated)
      (record k { links = list_remove (row t) k.links; irq = false }))

-- the state that it leaves after an insertion behind `l`
abbrev pub started : Kernel → TimerId → Node → Kernel
started k t l =
    record (set_flag t (bit_or ((prepared k t).timer t).flag flag_activated)
      (behind (prepared k t) t l)) { irq = k.irq }

module _ (fuel : ℕ) (k : Kernel) (b : ℕ) (t : TimerId) (ts rest : List TimerId)
    (i : IsTimers k b ts) (out : Without k t ts rest)
    (short : (k.timer t).init_tick < half_tick_max) (near : InWindow b (due_of k t))
    (f : length rest < fuel) where
  abbrev k1 : Kernel
  k1 = prepared k t

  due_set : (k1.timer t).timeout_tick ≡ due_of k t
  due_set = if_pos (timer_eq t t) refl (due_of k t) (k.timer t).timeout_tick

  same : All (λ u. (k1.timer u).timeout_tick ≡ (k.timer u).timeout_tick) rest
  same = same_due k t (due_of k t) rest (removed-Avoids k b t ts i rest out)

  -- the timers that are due no later than the new tick of `t`
  abbrev no_later : TimerId → Bool
  no_later u = leb (delay k b u) (tick_sub (due_of k t) b)

  -- the walk goes past exactly those
  past_delay :
      (us : List TimerId)
      → All (λ u. (k1.timer u).timeout_tick ≡ (k.timer u).timeout_tick) us
      → All (λ u. InWindow b (k.timer u).timeout_tick) us
      → All (λ u. past k1 (k1.timer t).timeout_tick u ≡ no_later u) us
  past_delay [] e w = tt
  past_delay (u ∷ us) e w = (
    rw (e.0, due_set) (goes_past_lem b (k.timer u).timeout_tick (due_of k t) i.base w.0 near),
    past_delay us e.1 w.1,
  )

  delays :
      (us : List TimerId)
      → All (λ u. (k1.timer u).timeout_tick ≡ (k.timer u).timeout_tick) us
      → All (λ u. delay k1 b u ≡ delay k b u) us
  delays [] e = tt
  delays (u ∷ us) e = (rw e.0, delays us e.1)

  tests :
      (us : List TimerId)
      → All (λ u. (k1.timer u).timeout_tick ≡ (k.timer u).timeout_tick) us
      → All (λ u. no_later u ≡ leb (delay k1 b u) (delay k1 b t)) us
  tests [] e = tt
  tests (u ∷ us) e = (rw (e.0, due_set), tests us e.1)

  at_place : insert_due (past k1 (k1.timer t).timeout_tick) t rest ≡ insert_due no_later t rest
  at_place =
      let r = removed k b t ts i rest out in
      let c =
        take_while-congr (past k1 (k1.timer t).timeout_tick) no_later rest
          (past_delay rest same r.window) in
      rw (c.0, c.1)

  -- Started with a delay of less than half the tick range, a timer is taken off the list if it was on
  -- it, gets the due tick `tick + init_tick`, and stands on the list behind all timers that are due no
  -- later and in front of the others. The list stays in the order of the due ticks, the call returns
  -- RT_EOK, and interrupts are enabled or not as before.
  pub timer_start-IsTimers :
      (l : Node) × (timer_start fuel t k ≡ some (eok, started k t l))
      × IsTimers (started k t l) b (insert_due no_later t rest)
      × (((started k t l).timer t).timeout_tick ≡ due_of k t)
      × IsTimerNode l
  unfolding timer_start
  timer_start-IsTimers =
      let r = removed k b t ts i rest out in
      let al = list_remove-IsAlone k.links (row t) i.linked in
      let ins = insert_timer_lem fuel k1 t rest r.linked al r.ring f in
      let w1 =
        All-congr (λ u. (k.timer u).timeout_tick) (λ u. (k1.timer u).timeout_tick) (InWindow b) rest
          same r.window in
      let s1 = IsSorted-congr (delay k b) (delay k1 b) rest (delays rest same) r.sorted in
      (
        ins.0,
        rw (lt→ltb _ _ short) (rw ins.1),
        record {
          linked =
              insert_after-IsLinked (list_remove (row t) k.links) ins.0 (row t) r.linked al ins.3;
          ring = rw at_place at ins.2;
          base = i.base;
          window =
              All-insert (λ u. InWindow b (k1.timer u).timeout_tick) no_later t (rw due_set near)
                rest w1;
          sorted = IsSorted-insert (delay k1 b) no_later t rest (tests rest same) s1;
        },
        due_set,
        ins.4,
      )
