-- ===== src/Clock/Rearm.antt =====
-- The end of a turn of `rt_timer_check` of src/timer.c: whether the timer is started again.
use Prim.Native.Nat.{bit_and}
use rtthread_nano_to_riscv.Prelude.{
  ℕ, suc, ◌<◌, ◌≤◌, ◌≡◌, refl, ap, ◌∙◌, Bool, true, not, ◌==◌, leb, ltb, ◌&&◌, List, map, some, inl,
  inr, Bool-cases, length, All, take_while, take_while-congr, arith,
}
use rtthread_nano_to_riscv.Prelude.Sorted.{All-insert, take_while-insert, length-insert}
use rtthread_nano_to_riscv.Service.Node.{timers, row, TimerId}
use rtthread_nano_to_riscv.Service.Pointers.{IsAlone}
use rtthread_nano_to_riscv.Service.Ring.{Ring-Avoids}
use rtthread_nano_to_riscv.Kernel.{Kernel, M, set_flag}
use rtthread_nano_to_riscv.Timer.{
  half_tick_max, tick_sub, not_activated, flag_activated, flag_periodic,
}
use rtthread_nano_to_riscv.Timer.Order.{InWindow, insert_due}
use rtthread_nano_to_riscv.Timer.Start.{IsTimers, delay, due_of, started, timer_start-IsTimers}
use rtthread_nano_to_riscv.Clock.{rearm}
use rtthread_nano_to_riscv.Clock.Due.{
  Callbacks, Bounded, is_due, not_due_yet, others_flag, Bounded-all, started_flags, flags_trans,
  started_dues, same_due_tests, due_all_first,
}

-- the state after a turn that does not start the timer again
abbrev idle : Kernel → TimerId → Kernel
idle k t = set_flag t (bit_and (k.timer t).flag not_activated) k

-- What a turn for the timer `t` leaves: the list `us`, and the others as they were.
pub record After (A : Type 0) (seen : Kernel → A) (b : ℕ) (k k' : Kernel) (old us : List TimerId)
    : Type 0 where
  pub timers : IsTimers k' b us
  pub tick : k'.tick ≡ k.tick
  pub bounded : All (Bounded b k') us
  pub size : length us ≤ suc (length old)
  pub dues : take_while (is_due k' k.tick) us ≡ take_while (is_due k k.tick) old
  pub seen_same : seen k' ≡ seen k

module _ {A : Type 0} (timeout_func : TimerId → M (Unit {0})) (run : TimerId → Kernel → Kernel)
    (seen : Kernel → A) (note : TimerId → A → A) (c : Callbacks timeout_func run seen note)
    (fuel b : ℕ) where
  -- the choice after the callback, for a timer that is off the list
  pub rearm_lem :
      (k : Kernel) (t : TimerId) (us : List TimerId)
      → IsTimers k b us
      → IsAlone k.links (row t)
      → InWindow b k.tick
      → Bounded b k t
      → All (Bounded b k) us
      → length us < fuel
      → (k' : Kernel) × (us' : List TimerId) × (rearm fuel t k ≡ some (tt, k'))
        × After A seen b k k' us us'
  unfolding rearm
  rearm_lem k t us i al n bt bs f =
      elim (Bool-cases (
        not (bit_and (k.timer t).flag flag_periodic == 0)
        && not (bit_and (k.timer t).flag flag_activated == 0))) [
          | inr e ↦ (
            idle k t,
            us,
            rw e,
            record {
              timers = record {
                linked = i.linked;
                ring = i.ring;
                base = i.base;
                window = i.window;
                sorted = i.sorted;
              };
              tick = refl;
              bounded =
                  Bounded-all b k (idle k t) us refl (λ u. refl)
                    (others_flag k t _ us
                      (Ring-Avoids k.links timers (row t) (map row us) al (λ e. cc) i.ring))
                    bs;
              size = omega arith;
              dues = refl;
              seen_same = c.still k (idle k t) refl refl refl refl refl;
            },
          )
          | inl e ↦ again e bt
        ]
    where
      again :
          (not (bit_and (k.timer t).flag flag_periodic == 0)
              && not (bit_and (k.timer t).flag flag_activated == 0))
            ≡ true
          → Bounded b k t
          → (k' : Kernel) × (us' : List TimerId) × (rearm fuel t k ≡ some (tt, k'))
            × After A seen b k k' us us'
      again e (inl s) = absurd (clash _ _ s e)
        where
          clash : (p q : Bool) → p ≡ true → (not p && q) ≡ true → ⊥
          clash p q s e = ground arith
      again e (inr r) =
          let k3 = idle k t in
          let i3 : IsTimers k3 b us = record {
            linked = i.linked;
            ring = i.ring;
            base = i.base;
            window = i.window;
            sorted = i.sorted;
          } in
          let st = timer_start-IsTimers fuel k3 b t us us i3 (inl (al, refl)) r.short r.near f in
          let k4 = started k3 t st.0 in
          let nl : TimerId → Bool = λ u. leb (delay k3 b u) (tick_sub (due_of k3 t) b) in
          let o = Ring-Avoids k.links timers (row t) (map row us) al (λ e. cc) i.ring in
          let same = started_dues k3 t st.0 us o in
          let flags =
            flags_trans k k3 k4 us (started_flags k3 t st.0 us o) (others_flag k t _ us o) in
          let late =
            not_due_yet k.tick (k.timer t).init_tick (due_of k t) n.word refl r.positive r.short in
          let late' = ap (λ n. ltb (tick_sub k.tick n) half_tick_max) st.3 ∙ late in
          (
            k4,
            insert_due nl t us,
            rw (e, st.1),
            record {
              timers = st.2;
              tick = refl;
              bounded =
                  All-insert (Bounded b k4) nl t
                    (inr (record { positive = r.positive; short = r.short; near = r.near })) us
                    (Bounded-all b k k4 us refl (λ u. refl) flags bs);
              size = omega (arith, length-insert nl t us);
              dues =
                  take_while-insert (is_due k4 k.tick) nl t us late'
                    (due_all_first b k k4 t us i.base n r i.window same)
                  ∙ (take_while-congr (is_due k4 k.tick) (is_due k k.tick) us
                      (same_due_tests k k4 k.tick us same)).0;
              seen_same = c.still k k4 refl refl refl refl refl;
            },
          )
