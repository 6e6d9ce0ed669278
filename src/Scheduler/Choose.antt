-- ===== src/Scheduler/Choose.antt =====
-- The choice that `rt_schedule` of src/scheduler.c makes.
use rtthread_nano_to_riscv.Prelude.{
  ℕ, ◌%◌, ◌^◌, ◌<◌, ◌≡◌, ◌≢◌, refl, lt→ltb, List, [], ◌∷◌, some, dec_lt, arith, if◌then◌else◌, ap,
  ◌∙◌, ◌==◌, Bool-cases, inl, inr,
}
use rtthread_nano_to_riscv.Prelude.Bits.{bit, bit-zero}
use rtthread_nano_to_riscv.Kservice.Ffs.Bytes.{IsLowest}
use rtthread_nano_to_riscv.Kservice.Ffs.Lowest.{ffs-IsLowest}
use rtthread_nano_to_riscv.Service.Node.{ready, tlist}
use rtthread_nano_to_riscv.Kernel.{
  Kernel, priority_max, context_switch, context_switch_interrupt, context_switch_to,
}
use rtthread_nano_to_riscv.Scheduler.{highest_ready, next_thread, schedule, scheduler_start}
use rtthread_nano_to_riscv.Scheduler.Queues.{Queues, IsReady, ready_bit}

-- `t` is in front of the queue of priority `p`, and every higher priority has an empty queue; a small
-- number is a high priority.
pub record IsTop (q : Queues) (p t : ℕ) : Type 0 where
  pub in_range : p < priority_max
  pub rest : List ℕ
  pub front : q p ≡ t ∷ rest
  pub above : (j : ℕ) → j < p → q j ≡ []

IsLowest-unique : (g p r : ℕ) → IsLowest g p → IsLowest g r → p ≡ r
IsLowest-unique g p r a b = elim (dec_lt p r) [
  | yes l ↦ absurd (omega (arith, a.set, b.below p l))
  | no nl ↦ elim (dec_lt r p) [
    | yes l ↦ absurd (omega (arith, b.set, a.below r l))
    | no nr ↦ omega arith
  ]
]

module _ (k : Kernel) (q : Queues) (p t : ℕ) (r : IsReady k q) (top : IsTop q p t) where
  lowest : IsLowest k.ready_group p
  lowest = record {
    set = r.bits p top.in_range ∙ ap ready_bit top.front;
    below = λ j l. r.bits j (omega (arith, top.in_range)) ∙ ap ready_bit (top.above j l);
  }

  highest : highest_ready k.ready_group ≡ p
  unfolding highest_ready
  highest =
      let ne : k.ready_group ≢ 0 =
        λ e. absurd (omega (arith, lowest.set, ap (λ (g : ℕ). bit g p) e, bit-zero p)) in
      let f = ffs-IsLowest k.ready_group r.width ne in
      omega (arith, f.1, f.2, IsLowest-unique k.ready_group _ p f.0 lowest, top.in_range)

  front_node : k.links.next (ready p) ≡ tlist t
  front_node = (rw top.front at (r.rings p top.in_range)).0.0

  next_thread-top : next_thread (highest_ready k.ready_group) k ≡ some (t, k)
  unfolding next_thread
  next_thread-top = rw highest (rw (lt→ltb _ _ top.in_range) (rw front_node refl))

  -- the state that `rt_schedule` leaves when `c` runs
  abbrev switched : ℕ → Kernel
  switched c = record k {
    current = some t;
    current_priority = p;
    switches =
        (if k.interrupt_nest == 0 then context_switch c t else context_switch_interrupt c t)
        ∷ k.switches;
  }

  -- With the scheduler unlocked, `rt_schedule` goes on with the running thread if that is the first of
  -- the highest ready priority. Otherwise it makes that one the current thread and asks for one switch
  -- to it, at once or, inside an interrupt, on the way out. It changes nothing else.
  pub schedule-top :
      (c : ℕ)
      → k.current ≡ some c
      → k.lock_nest ≡ 0
      → schedule k ≡ some (tt, if t == c then k else switched c)
  unfolding schedule
  schedule-top c cur free =
      let small : p % 2 ^ 8 ≡ p = omega (arith, top.in_range) in
      rw (free, highest)
        (rw (lt→ltb _ _ top.in_range) (
          rw front_node
            (rw cur (elim (Bool-cases (t == c)) [ inl e ↦ rw e | inr e ↦ rw (e, small) ]))))

  -- `rt_system_scheduler_start` makes the first thread of the highest ready priority the current one.
  pub scheduler_start-top :
      scheduler_start k
      ≡ some (tt, record k { current = some t; switches = context_switch_to t ∷ k.switches })
  unfolding scheduler_start
  scheduler_start-top = rw highest (rw (lt→ltb _ _ top.in_range) (rw front_node))

-- With the scheduler locked, `rt_schedule` does nothing.
pub schedule-locked : (k : Kernel) → k.lock_nest ≢ 0 → schedule k ≡ some (tt, k)
unfolding schedule
schedule-locked k ne = ground arith
