-- ===== src/Ipc/Event/Receipt.antt =====
-- `rt_event_send` and `rt_event_recv` of src/ipc.c, one after the other.
use Prim.Native.Nat.{max, bit_and, bit_or}
use rtthread_nano_to_riscv.Prelude.{
  not_zero, Bool-cases, inl, inr, ℕ, ◌-◌, ◌^◌, ◌<◌, ◌≡◌, refl, min, if◌then◌else◌, ap, ◌∙◌, ◌⊎◌,
  Bool, true, false, if_pos, ℕ_discrete, some, [], arith,
}
use rtthread_nano_to_riscv.Prelude.Bits.{
  bit, bit-bit_or, bit-bit_and, bit-complement, bit-le-one, eq_of_bits, bit_and-le, bit_or-lt,
}
use rtthread_nano_to_riscv.Kernel.{Kernel, set_error, eok, complement}
use rtthread_nano_to_riscv.Thread.Yield.{self-running}
use rtthread_nano_to_riscv.Ipc.Waiting.{IsWaiting}
use rtthread_nano_to_riscv.Ipc.Semaphore.{in_thread_context-running}
use rtthread_nano_to_riscv.Ipc.Mutex.Owner.{IsRunning}
use rtthread_nano_to_riscv.Ipc.Event.Waking.{event_send-nobody}
use rtthread_nano_to_riscv.Ipc.Event.{
  flag_and, flag_or, flag_clear, has, is_met, set_set, returns, event_send, receive, event_recv,
}

-- Events that were just added are all there.
added : (a s : ℕ) → a < 2 ^ 32 → s < 2 ^ 32 → bit_and (bit_or a s) s ≡ s
added a s h l =
    let le = bit_and-le (bit_or a s) s in
    eq_of_bits 32 (bit_and (bit_or a s) s) s (omega arith) l
      (λ i b. omega (arith, bit-bit_and (bit_or a s) s i, bit-bit_or a s i))

wanted : (a s : ℕ) → a < 2 ^ 32 → s < 2 ^ 32 → bit_and s (bit_or a s) ≡ s
wanted a s h l =
    let w = bit_or-lt 32 a s h l in
    let le = bit_and-le s (bit_or a s) in
    eq_of_bits 32 (bit_and s (bit_or a s)) s (omega arith) l
      (λ i b. omega (arith, bit-bit_and s (bit_or a s) i, bit-bit_or a s i))

remains :
    (a s b : ℕ)
    → s < 2 ^ 32
    → b < 32
    → bit (bit_and (bit_or a s) (complement s)) b ≡ min (bit a b) (1 - bit s b)
remains a s b l h = omega (
  arith,
  bit-bit_and (bit_or a s) (complement s) b,
  bit-bit_or a s b,
  bit-complement 32 s b l h,
  bit-le-one a b,
  bit-le-one s b,
)

either : (a b : Bool) → (a ≡ true) ⊎ (b ≡ true) → (if a then true else b) ≡ true
either a b h = ground arith

met :
    (option a s : ℕ)
    → bit_and s (bit_or a s) ≡ s
    → 0 < s
    → (has option flag_and ≡ true) ⊎ (has option flag_or ≡ true)
    → is_met option s (bit_or a s) ≡ true
unfolding is_met
met option a s e h f = ground arith

-- the state after the events were added, and after they were received
abbrev pub sent_out : Kernel → ℕ → ℕ → Kernel
sent_out k i set = set_set i (bit_or (k.event i).set set) k

abbrev pub received_out : Kernel → ℕ → ℕ → ℕ → ℕ → Kernel
received_out k i t set option =
    if has option flag_clear
    then set_set i (bit_and (((sent_out k i set).event i).set) (complement set))
        (set_error t eok (sent_out k i set))
    else set_error t eok (sent_out k i set)

receives :
    (k : Kernel) (i set option : ℕ)
    → receive i set option k
      ≡ some (
        bit_and (k.event i).set set,
        if has option flag_clear then set_set i (bit_and (k.event i).set (complement set)) k else k,
      )
unfolding receive
receives k i set option = elim (Bool-cases (has option flag_clear)) [
  | inl e ↦ rw e refl
  | inr e ↦ rw e refl
]

module _ (k : Kernel) (i t set option : ℕ) (c : IsRunning k t) (h : 0 < set) (l : set < 2 ^ 32)
    (l0 : (k.event i).set < 2 ^ 32)
    (kind : (has option flag_and ≡ true) ⊎ (has option flag_or ≡ true)) where
  there : ((sent_out k i set).event i).set ≡ bit_or (k.event i).set set
  there = if_pos (ℕ_discrete i i) refl (bit_or (k.event i).set set) (k.event i).set

  received :
      (fuel timeout : ℕ)
      → event_recv fuel i set option timeout (sent_out k i set)
        ≡ some (returns eok (some set), received_out k i t set option)
  unfolding event_recv
  received fuel timeout =
      let k1 : Kernel = record (set_error t eok (sent_out k i set)) { irq = false } in
      let a = (k.event i).set in
      let all = added a set l0 l in
      rw (in_thread_context-running (sent_out k i set) t c.current c.nest) (
        rw (not_zero set h) (
          rw (self-running (sent_out k i set) t c.current) (
            rw (either _ _ kind) (
              rw there (
                rw (met option a set (wanted a set l0 l) h kind) (
                  rw (receives k1 i set option) (
                    rw there (
                      rw all (elim (Bool-cases (has option flag_clear)) [
                        | inl e ↦ rw e refl
                        | inr e ↦ rw e refl
                      ])))))))))

  left_over :
      (b : ℕ)
      → b < 32
      → bit ((received_out k i t set option).event i).set b ≡ (
          if has option flag_clear
          then min (bit (k.event i).set b) (1 - bit set b)
          else max (bit (k.event i).set b) (bit set b))
  left_over b s = elim (Bool-cases (has option flag_clear)) [
    | inl e ↦ rw e (
        ap (λ n. bit n b)
          (if_pos (ℕ_discrete i i) refl _ _ ∙ ap (λ n. bit_and n (complement set)) there)
        ∙ remains (k.event i).set set b l s)
    | inr e ↦ rw e (ap (λ n. bit n b) there ∙ bit-bit_or (k.event i).set set b)
  ]

-- Where nobody waits and a thread runs outside of interrupts, the events that `rt_event_send` adds,
-- of which there is at least one, are received by a `rt_event_recv` for them, be it for all or for
-- any of them, with or without time to wait. With RT_EVENT_FLAG_CLEAR just the other events are
-- left, and without it all events that were there or were added.
pub event_recv-event_send :
    (k : Kernel) (fuel i t set option timeout b : ℕ)
    → IsRunning k t
    → IsWaiting k i []
    → 0 < set
    → set < 2 ^ 32
    → (k.event i).set < 2 ^ 32
    → (has option flag_and ≡ true) ⊎ (has option flag_or ≡ true)
    → b < 32
    → (event_send fuel i set k ≡ some (eok, sent_out k i set))
      × (event_recv fuel i set option timeout (sent_out k i set)
          ≡ some (returns eok (some set), received_out k i t set option))
      × (bit ((received_out k i t set option).event i).set b ≡ (
          if has option flag_clear
          then min (bit (k.event i).set b) (1 - bit set b)
          else max (bit (k.event i).set b) (bit set b)))
event_recv-event_send k fuel i t set option timeout b c w h l l0 kind s = (
  event_send-nobody k i set fuel h w,
  received k i t set option c h l l0 kind fuel timeout,
  left_over k i t set option c h l l0 kind b s,
)
