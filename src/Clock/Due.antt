-- ===== src/Clock/Due.antt =====
-- The timers that are due, and those that come round later.
use Prim.Native.Nat.{bit_and}
use rtthread_nano_to_riscv.Prelude.{
  ℕ, ◌+◌, ◌%◌, ◌^◌, ◌<◌, ◌≤◌, ◌≡◌, refl, sym, ap, ◌∙◌, Bool, true, false, ◌==◌, leb, ltb, List, [],
  ◌∷◌, map, some, if_neg, inl, inr, ◌⊎◌, All, Avoids, arith, subst,
}
use rtthread_nano_to_riscv.Service.Node.{Node, timers, row, TimerId, timer_eq}
use rtthread_nano_to_riscv.Service.Pointers.{IsAlone}
use rtthread_nano_to_riscv.Service.Ring.{list_isempty_lem}
use rtthread_nano_to_riscv.Kernel.{Kernel, M, set_flag}
use rtthread_nano_to_riscv.Timer.{half_tick_max, tick_sub, timer_entry, flag_periodic}
use rtthread_nano_to_riscv.Timer.Order.{InWindow}
use rtthread_nano_to_riscv.Timer.Start.{IsTimers, delay, due_of, started}
use rtthread_nano_to_riscv.Clock.{first_timer}

-- whether RT_TIMER_FLAG_PERIODIC is not set
abbrev pub is_oneshot : Kernel → TimerId → Bool
is_oneshot k t = bit_and (k.timer t).flag flag_periodic == 0

-- The callbacks return, leave the timers, their list and the tick alone, and are observed by `seen`,
-- which the work on timers does not change.
pub record Callbacks {A : Type 0} (timeout_func : TimerId → M (Unit {0}))
    (run : TimerId → Kernel → Kernel) (seen : Kernel → A) (note : TimerId → A → A) : Type 0 where
  pub returns : (t : TimerId) (k : Kernel) → timeout_func t k ≡ some (tt, run t k)
  pub table : (t : TimerId) (k : Kernel) → (run t k).timer ≡ k.timer
  pub tick : (t : TimerId) (k : Kernel) → (run t k).tick ≡ k.tick
  pub list :
      (t : TimerId) (k : Kernel) (b : ℕ) (ts : List TimerId)
      → IsTimers k b ts
      → IsTimers (run t k) b ts
  pub alone : (t : TimerId) (k : Kernel) → IsAlone k.links (row t) → IsAlone (run t k).links (row t)
  pub noted : (t : TimerId) (k : Kernel) → seen (run t k) ≡ note t (seen k)
  pub still :
      (k k' : Kernel)
      → (k'.thread ≡ k.thread)
      → (k'.sem ≡ k.sem)
      → (k'.current ≡ k.current)
      → (k'.ready_group ≡ k.ready_group)
      → (k'.switches ≡ k.switches)
      → seen k' ≡ seen k

-- A periodic timer comes round later, within the window.
pub record Repeats (b : ℕ) (k : Kernel) (t : TimerId) : Type 0 where
  pub positive : 0 < (k.timer t).init_tick
  pub short : (k.timer t).init_tick < half_tick_max
  pub near : InWindow b (due_of k t)

abbrev pub Bounded : ℕ → Kernel → TimerId → Type 0
Bounded b k t = (is_oneshot k t ≡ true) ⊎ Repeats b k t

-- whether `rt_timer_check` runs the timer at the tick `now`
abbrev pub is_due : Kernel → ℕ → TimerId → Bool
is_due k now t = ltb (tick_sub now (k.timer t).timeout_tick) half_tick_max

-- the callbacks of the timers, one after the other
abbrev pub noted_all : {A : Type 0} → (TimerId → A → A) → List TimerId → A → A
noted_all note [] a = a
noted_all note (t ∷ ts) a = noted_all note ts (note t a)

pub first_timer_lem :
    (k : Kernel) (b : ℕ) (t : TimerId) (us : List TimerId)
    → IsTimers k b (t ∷ us)
    → first_timer k ≡ some (some t, k)
unfolding first_timer timer_entry
first_timer_lem k b t us i =
    rw (list_isempty_lem k.links timers (map row (t ∷ us)) i.ring, i.ring.0.0) refl

pub due_first_lem :
    (b now due new init : ℕ)
    → now < 2 ^ 32
    → tick_sub now b < half_tick_max
    → due < 2 ^ 32
    → tick_sub due b < half_tick_max
    → new ≡ (now + init) % 2 ^ 32
    → new < 2 ^ 32
    → tick_sub new b < half_tick_max
    → 0 < init
    → init < half_tick_max
    → b < 2 ^ 32
    → ltb (tick_sub now due) half_tick_max ≡ true
    → leb (tick_sub due b) (tick_sub new b) ≡ true
unfolding tick_sub
due_first_lem b now due new init a1 a2 a3 a4 e a5 a6 p s h q = ground arith

-- What is due is due before what comes round, and in the window's order so is what is past that.
pub due_first :
    (b now due new init : ℕ)
    → InWindow b now
    → InWindow b due
    → new ≡ (now + init) % 2 ^ 32
    → InWindow b new
    → 0 < init
    → init < half_tick_max
    → b < 2 ^ 32
    → ltb (tick_sub now due) half_tick_max ≡ true
    → leb (tick_sub due b) (tick_sub new b) ≡ true
due_first b now due new init n d e w p s h q =
    due_first_lem b now due new init n.word n.near d.word d.near e w.word w.near p s h q

-- what comes round is not due
pub not_due_yet :
    (now init new : ℕ)
    → now < 2 ^ 32
    → new ≡ (now + init) % 2 ^ 32
    → 0 < init
    → init < half_tick_max
    → ltb (tick_sub now new) half_tick_max ≡ false
unfolding tick_sub
not_due_yet now init new h e p s = ground arith

-- what is behind a timer that is not due is not due either
pub not_due_behind :
    (b now d1 d2 : ℕ)
    → b < 2 ^ 32
    → now < 2 ^ 32
    → tick_sub now b < half_tick_max
    → d1 < 2 ^ 32
    → tick_sub d1 b < half_tick_max
    → d2 < 2 ^ 32
    → tick_sub d2 b < half_tick_max
    → tick_sub d1 b ≤ tick_sub d2 b
    → ltb (tick_sub now d1) half_tick_max ≡ false
    → ltb (tick_sub now d2) half_tick_max ≡ false
unfolding tick_sub
not_due_behind b now d1 d2 h a1 a2 a3 a4 a5 a6 l e = ground arith

-- `timer_start` and its preparation leave the flags and delays of the other timers.
pub others_flag :
    (k : Kernel) (t : TimerId) (v : ℕ) (us : List TimerId)
    → Avoids (row t) (map row us)
    → All (λ u. ((set_flag t v k).timer u).flag ≡ (k.timer u).flag) us
others_flag k t v [] o = tt
others_flag k t v (u ∷ us) o =
    (rw (if_neg (timer_eq u t) (λ e. o.0 (rw e))), others_flag k t v us o.1)

-- a bound goes over to a state with the same tick and delays, and flags that agree on the list
pub Bounded-all :
    (b : ℕ) (k k' : Kernel) (us : List TimerId)
    → (k'.tick ≡ k.tick)
    → ((u : TimerId) → (k'.timer u).init_tick ≡ (k.timer u).init_tick)
    → All (λ u. (k'.timer u).flag ≡ (k.timer u).flag) us
    → All (Bounded b k) us
    → All (Bounded b k') us
Bounded-all b k k' [] e d f a = tt
Bounded-all b k k' (u ∷ us) e d f a = (one u (d u) f.0 a.0, Bounded-all b k k' us e d f.1 a.1)
  where
    one :
        (u : TimerId)
        → (k'.timer u).init_tick ≡ (k.timer u).init_tick
        → (k'.timer u).flag ≡ (k.timer u).flag
        → Bounded b k u
        → Bounded b k' u
    one u d f (inl s) = inl (ap (λ n. bit_and n flag_periodic == 0) f ∙ s)
    one u d f (inr r) = inr (record {
      positive = subst (λ n. 0 < n) (sym d) r.positive;
      short = subst (λ n. n < half_tick_max) (sym d) r.short;
      near =
          subst (λ n. InWindow b ((n + (k'.timer u).init_tick) % 2 ^ 32)) (sym e)
            (subst (λ n. InWindow b ((k.tick + n) % 2 ^ 32)) (sym d) r.near);
    })

-- Starting `t` leaves the flags and the due ticks of the other timers.
pub started_flags :
    (k : Kernel) (t : TimerId) (l : Node) (us : List TimerId)
    → Avoids (row t) (map row us)
    → All (λ u. ((started k t l).timer u).flag ≡ (k.timer u).flag) us
started_flags k t l [] o = tt
started_flags k t l (u ∷ us) o = (
  if_neg (timer_eq u t) (λ e. o.0 (rw e)) _ _ ∙ if_neg (timer_eq u t) (λ e. o.0 (rw e)) _ _,
  started_flags k t l us o.1,
)

pub flags_trans :
    (k k1 k2 : Kernel) (us : List TimerId)
    → All (λ u. (k2.timer u).flag ≡ (k1.timer u).flag) us
    → All (λ u. (k1.timer u).flag ≡ (k.timer u).flag) us
    → All (λ u. (k2.timer u).flag ≡ (k.timer u).flag) us
flags_trans k k1 k2 [] e f = tt
flags_trans k k1 k2 (u ∷ us) e f = (e.0 ∙ f.0, flags_trans k k1 k2 us e.1 f.1)

pub started_dues :
    (k : Kernel) (t : TimerId) (l : Node) (us : List TimerId)
    → Avoids (row t) (map row us)
    → All (λ u. ((started k t l).timer u).timeout_tick ≡ (k.timer u).timeout_tick) us
started_dues k t l [] o = tt
started_dues k t l (u ∷ us) o =
    (rw (if_neg (timer_eq u t) (λ e. o.0 (rw e))), started_dues k t l us o.1)

pub same_due_tests :
    (k k' : Kernel) (now : ℕ) (us : List TimerId)
    → All (λ u. (k'.timer u).timeout_tick ≡ (k.timer u).timeout_tick) us
    → All (λ u. is_due k' now u ≡ is_due k now u) us
same_due_tests k k' now [] e = tt
same_due_tests k k' now (u ∷ us) e =
    (ap (λ n. ltb (tick_sub now n) half_tick_max) e.0, same_due_tests k k' now us e.1)

-- What is due stands in front of a timer that comes round.
pub due_all_first :
    (b : ℕ) (k k' : Kernel) (t : TimerId) (us : List TimerId)
    → b < 2 ^ 32
    → InWindow b k.tick
    → Repeats b k t
    → All (λ u. InWindow b (k.timer u).timeout_tick) us
    → All (λ u. (k'.timer u).timeout_tick ≡ (k.timer u).timeout_tick) us
    → All (λ u. is_due k' k.tick u ≡ true → leb (delay k b u) (tick_sub (due_of k t) b) ≡ true) us
due_all_first b k k' t [] h n r w e = tt
due_all_first b k k' t (u ∷ us) h n r w e = (
  λ d.
      due_first b k.tick (k.timer u).timeout_tick (due_of k t) (k.timer t).init_tick n w.0 refl
        r.near r.positive r.short h (ap (λ n. ltb (tick_sub k.tick n) half_tick_max) (sym e.0) ∙ d),
  due_all_first b k k' t us h n r w.1 e.1,
)

-- the same for a state with the same timer table
pub same_table :
    (k k' : Kernel) (us : List TimerId)
    → ((u : TimerId) → k'.timer u ≡ k.timer u)
    → All (λ u. (k'.timer u).flag ≡ (k.timer u).flag) us
      × All (λ u. (k'.timer u).timeout_tick ≡ (k.timer u).timeout_tick) us
same_table k k' [] e = (tt, tt)
same_table k k' (u ∷ us) e =
    let r = same_table k k' us e in
    ((ap (λ z. z.flag) (e u), r.0), (ap (λ z. z.timeout_tick) (e u), r.1))
