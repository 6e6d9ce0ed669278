-- ===== src/Clock/Check.antt =====
-- `rt_timer_check` of src/timer.c: which callbacks run, and what stays on the list.
use rtthread_nano_to_riscv.Prelude.{
  ℕ, zero, suc, ◌<◌, ◌≤◌, ◌≡◌, refl, sym, ap, ◌∙◌, true, false, List, [], ◌∷◌, some, none, inl, inr,
  Bool-cases, length, All, take_while, take_while-congr, arith, subst,
}
use rtthread_nano_to_riscv.Service.Node.{timers, row, TimerId}
use rtthread_nano_to_riscv.Service.Links.{list_remove}
use rtthread_nano_to_riscv.Service.Pointers.{list_remove-IsAlone}
use rtthread_nano_to_riscv.Service.Ring.{list_isempty_lem}
use rtthread_nano_to_riscv.Kernel.{Kernel, M, and_then, ◌>>=◌, ◌>>◌}
use rtthread_nano_to_riscv.Timer.{timer_remove}
use rtthread_nano_to_riscv.Timer.Order.{InWindow}
use rtthread_nano_to_riscv.Timer.Start.{IsTimers, removed, delay}
use rtthread_nano_to_riscv.Clock.{rearm, first_timer, fire, check_loop, timer_check, tick_get}
use rtthread_nano_to_riscv.Clock.Due.{
  Callbacks, Bounded, is_due, noted_all, first_timer_lem, not_due_behind, Bounded-all,
  same_due_tests, same_table,
}
use rtthread_nano_to_riscv.Clock.Rearm.{rearm_lem}

module _ {A : Type 0} (timeout_func : TimerId → M (Unit {0})) (run : TimerId → Kernel → Kernel)
    (seen : Kernel → A) (note : TimerId → A → A) (c : Callbacks timeout_func run seen note)
    (fuel b : ℕ) where
  -- A turn for a timer that is due.
  fire_lem :
      (k : Kernel) (rest : ℕ → M (Unit {0})) (t : TimerId) (us : List TimerId)
      → IsTimers k b (t ∷ us)
      → InWindow b k.tick
      → All (Bounded b k) (t ∷ us)
      → suc (length us) < fuel
      → is_due k k.tick t ≡ true
      → (k' : Kernel) × (us' : List TimerId) × (fire timeout_func fuel rest k.tick (some t) k
          ≡ rest k.tick k')
        × IsTimers k' b us'
        × (k'.tick ≡ k.tick)
        × All (Bounded b k') us'
        × (length us' ≤ suc (length us))
        × (take_while (is_due k' k.tick) us' ≡ take_while (is_due k k.tick) us)
        × (seen k' ≡ note t (seen k))
  unfolding fire timer_remove tick_get
  fire_lem k rest t us i n bs f d =
      let k1 : Kernel = record k { links = list_remove (row t) k.links } in
      let k2 = run t k1 in
      let i2 = c.list t k1 b us (removed k b t (t ∷ us) i us (inr ([], us, refl, refl))) in
      let al = c.alone t k1 (list_remove-IsAlone k.links (row t) i.linked) in
      let table : (u : TimerId) → k2.timer u ≡ k.timer u = λ u. ap (λ f. f u) (c.table t k1) in
      let tick : k2.tick ≡ k.tick = c.tick t k1 in
      let m =
        Bounded-all b k k2 (t ∷ us) tick (λ u. ap (λ z. z.init_tick) (table u))
          (same_table k k2 (t ∷ us) table).0 bs in
      let r =
        rearm_lem timeout_func run seen note c fuel b k2 t us i2 al
          (subst (InWindow b) (sym tick) n) m.0 m.1 (omega (arith, f)) in
      let a = r.3 in
      let e =
        ap (λ r. and_then r (λ x. tick_get >>= λ now. rearm fuel t >> rest now)) (c.returns t k1)
        ∙ ap (λ r. and_then r (λ x. rest k2.tick)) r.2
        ∙ ap (λ now. rest now r.0) tick in
      (
        r.0,
        r.1,
        rw d e,
        a.timers,
        a.tick ∙ tick,
        a.bounded,
        a.size,
        subst (λ now. take_while (is_due r.0 now) r.1 ≡ take_while (is_due k2 now) us) tick a.dues
            ∙ (take_while-congr (is_due k2 k.tick) (is_due k k.tick) us
                (same_due_tests k k2 k.tick us (same_table k k2 us table).1)).0,
        a.seen_same ∙ c.noted t k1 ∙ ap (note t) (c.still k k1 refl refl refl refl refl),
      )

  none_due :
      (k : Kernel) (t : TimerId) (us : List TimerId)
      → IsTimers k b (t ∷ us)
      → InWindow b k.tick
      → is_due k k.tick t ≡ false
      → All (λ u. is_due k k.tick u ≡ false) (t ∷ us)
  none_due k t us i n d = (d, behind us i.sorted.0 i.window.1)
    where
      behind :
          (us : List TimerId)
          → All (λ u. delay k b t ≤ delay k b u) us
          → All (λ u. InWindow b (k.timer u).timeout_tick) us
          → All (λ u. is_due k k.tick u ≡ false) us
      behind [] l w = tt
      behind (u ∷ us) l w = (
        not_due_behind b k.tick _ (k.timer u).timeout_tick i.base n.word n.near i.window.0.word
            i.window.0.near w.0.word w.0.near l.0 d,
        behind us l.1 w.1,
      )

  -- The loop ends with nothing due on the list, after the callbacks of the timers that were due.
  abbrev Ends : ℕ → ℕ → Kernel → List TimerId → Type 0
  Ends turns now k ts =
      (k' : Kernel) × (us : List TimerId) × (check_loop timeout_func fuel turns now k
        ≡ some (tt, k'))
      × IsTimers k' b us
      × All (λ u. is_due k' now u ≡ false) us
      × (seen k' ≡ noted_all note (take_while (is_due k now) ts) (seen k))

  -- a turn in front of the others
  Ends-turn :
      (turns now : ℕ) (k k1 : Kernel) (t : TimerId) (us us1 : List TimerId)
      → check_loop timeout_func fuel (suc turns) now k ≡ check_loop timeout_func fuel turns now k1
      → is_due k now t ≡ true
      → take_while (is_due k1 now) us1 ≡ take_while (is_due k now) us
      → seen k1 ≡ note t (seen k)
      → Ends turns now k1 us1
      → Ends (suc turns) now k (t ∷ us)
  Ends-turn turns now k k1 t us us1 e d same noted r = (
    r.0,
    r.1,
    e ∙ r.2,
    r.3,
    r.4,
    rw d (
        r.5
        ∙ ap (λ ts. noted_all note ts (seen k1)) same
        ∙ ap (noted_all note (take_while (is_due k now) us)) noted),
  )

  first_none : (k : Kernel) → IsTimers k b [] → first_timer k ≡ some (none, k)
  unfolding first_timer
  first_none k i = rw (list_isempty_lem k.links timers [] i.ring) refl

  fewer :
      (k : Kernel) (now : ℕ) (t : TimerId) (us us1 : List TimerId) (k1 : Kernel) (turns : ℕ)
      → is_due k now t ≡ true
      → take_while (is_due k1 now) us1 ≡ take_while (is_due k now) us
      → length (take_while (is_due k now) (t ∷ us)) < suc turns
      → length (take_while (is_due k1 now) us1) < turns
  fewer k now t us us1 k1 turns d e l =
      let m : suc (length (take_while (is_due k now) us)) < suc turns = rw d at l in
      rw e (omega (arith, m))

  -- It ends when it has more turns than timers are due.
  check_loop-Ends :
      (turns : ℕ) (k : Kernel) (ts : List TimerId)
      → IsTimers k b ts
      → InWindow b k.tick
      → All (Bounded b k) ts
      → length ts < fuel
      → length (take_while (is_due k k.tick) ts) < turns
      → Ends turns k.tick k ts
  unfolding check_loop
  check_loop-Ends zero k ts i n bs f l = absurd (omega arith)
  check_loop-Ends (suc turns) k [] i n bs f l = (k, [], rw (first_none k i) refl, i, tt, refl)
  check_loop-Ends (suc turns) k (t ∷ us) i n bs f l =
      let loop = fire timeout_func fuel (check_loop timeout_func fuel turns) k.tick in
      let first = ap (λ r. and_then r loop) (first_timer_lem k b t us i) in
      elim (Bool-cases (is_due k k.tick t)) [
        | inr d ↦ (k, t ∷ us, first ∙ (rw d), i, none_due k t us i n d, rw d)
        | inl d ↦
            let r =
              fire_lem k (check_loop timeout_func fuel turns) t us i n bs (omega (arith, f)) d in
            let size : length r.1 < fuel = omega (arith, r.6, f) in
            let dues = fewer k k.tick t us r.1 r.0 turns d r.7 l in
            let more =
              check_loop-Ends turns r.0 r.1 r.3 (subst (InWindow b) (sym r.4) n) r.5 size
                (subst (λ now. length (take_while (is_due r.0 now) r.1) < turns) (sym r.4) dues) in
            Ends-turn turns k.tick k r.0 t us r.1 (first ∙ r.2) d r.7 r.8
              (subst (λ now. Ends turns now r.0 r.1) r.4 more)
      ]

  -- Where the callbacks return and leave the timers alone, `rt_timer_check` ends, with more turns than
  -- timers are due: the callbacks of exactly those due at this tick run, once each and in the list's
  -- order, nothing on the list is due afterwards, and interrupts are enabled or not as before. All
  -- timers are due within half the tick range from `b` on, and a periodic one comes round there too,
  -- with a delay of at least one tick.
  pub timer_check-none_due :
      (turns : ℕ) (k : Kernel) (ts : List TimerId)
      → IsTimers k b ts
      → InWindow b k.tick
      → All (Bounded b k) ts
      → length ts < fuel
      → length (take_while (is_due k k.tick) ts) < turns
      → (k' : Kernel) × (us : List TimerId) × (timer_check timeout_func fuel turns k
          ≡ some (tt, k'))
        × IsTimers k' b us
        × All (λ u. is_due k' k.tick u ≡ false) us
        × (seen k' ≡ noted_all note (take_while (is_due k k.tick) ts) (seen k))
        × (k'.irq ≡ k.irq)
  unfolding timer_check tick_get
  timer_check-none_due turns k ts i n bs f l =
      let k0 : Kernel = record k { irq = false } in
      let r =
        check_loop-Ends turns k0 ts
          (record {
            linked = i.linked;
            ring = i.ring;
            base = i.base;
            window = i.window;
            sorted = i.sorted;
          })
          n (Bounded-all b k k0 ts refl (λ u. refl) (same_table k k0 ts (λ u. refl)).0 bs) f l in
      let k1 : Kernel = record r.0 { irq = k.irq } in
      let t = r.3 in
      (
        k1,
        r.1,
        rw r.2,
        record {
          linked = t.linked;
          ring = t.ring;
          base = t.base;
          window = t.window;
          sorted = t.sorted;
        },
        r.4,
        c.still r.0 k1 refl refl refl refl refl
            ∙ r.5
            ∙ ap (noted_all note (take_while (is_due k k.tick) ts))
                (c.still k k0 refl refl refl refl refl),
        refl,
      )
