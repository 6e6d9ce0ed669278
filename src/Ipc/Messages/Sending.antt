-- ===== src/Ipc/Messages/Sending.antt =====
-- `rt_mq_send` and `rt_mq_urgent` as operations on the list of messages.
use rtthread_nano_to_riscv.Prelude.{
  not_zero, not_less, ℕ, suc, ◌+◌, ◌-◌, ◌%◌, ◌^◌, ◌<◌, ◌≤◌, ◌≡◌, refl, sym, ap, ◌∙◌, subst, ltb,
  leb, ◌&&◌, if◌then◌else◌, ite, ℕ_discrete, if_pos, Option, none, some, List, [], ◌∷◌, ◌++◌,
  length, arith, Avoids-split, Distinct, Distinct-delete,
}
use rtthread_nano_to_riscv.Service.Node.{suspended}
use rtthread_nano_to_riscv.Service.Ring.{list_isempty_lem}
use rtthread_nano_to_riscv.Kernel.{Kernel, eok, efull}
use rtthread_nano_to_riscv.Kservice.Memory.Copying.{Forward, memcpy-copied}
use rtthread_nano_to_riscv.Ipc.Waiting.{IsWaiting}
use rtthread_nano_to_riscv.Ipc.Mailbox.{mb_wake}
use rtthread_nano_to_riscv.Ipc.Messages.{
  set_head, set_tail, set_free, set_messages, set_next, copy_in, link_after, link_tail, first_or,
  mq_send, mq_urgent,
}
use rtthread_nano_to_riscv.Service.Chain.{
  Chain, Chain-frame, Chain-append, last_or, last_or-Avoids, last_of, last_of-append,
}
use rtthread_nano_to_riscv.Ipc.Messages.Chain.{length-append, length-le, IsQueue}

-- the states after `rt_mq_send` and `rt_mq_urgent` with the message `m`
abbrev filled : Kernel → ℕ → ℕ → ℕ → ℕ → Kernel
filled k i m buffer size = copy_in m buffer size (set_next m none (set_free i (k.msg_next m) k))

abbrev pub send_out : Kernel → ℕ → ℕ → ℕ → ℕ → Kernel
send_out k i m buffer size = set_messages i (((k.message_queue i).entry + 1) % 2 ^ 16) (
    set_head i (first_or (k.message_queue i).head m)
      (set_tail i (some m) (link_tail (k.message_queue i).tail m (filled k i m buffer size))))

abbrev pub urgent_out : Kernel → ℕ → ℕ → ℕ → ℕ → Kernel
urgent_out k i m buffer size = set_messages i (((k.message_queue i).entry + 1) % 2 ^ 16) (
    set_tail i (first_or (k.message_queue i).tail m) (
      set_head i (some m) (
        set_next m (k.message_queue i).head (copy_in m buffer size (set_free i (k.msg_next m) k)))))

length-snoc : (xs : List ℕ) (m : ℕ) → length (xs ++ m ∷ []) ≡ suc (length xs)
length-snoc [] m = refl
length-snoc (x ∷ xs) m = ap suc (length-snoc xs m)

snoc_assoc : (xs ys : List ℕ) (m : ℕ) → (xs ++ m ∷ []) ++ ys ≡ xs ++ m ∷ ys
snoc_assoc [] ys m = refl
snoc_assoc (x ∷ xs) ys m = ap (λ zs. x ∷ zs) (snoc_assoc xs ys m)

Distinct-front : (xs ys : List ℕ) → Distinct (xs ++ ys) → Distinct xs
Distinct-front [] ys d = tt
Distinct-front (x ∷ xs) ys d = ((Avoids-split x xs ys d.0).0, Distinct-front xs ys d.1)

first_or_lem : (xs : List ℕ) (m : ℕ) → first_or (last_of xs) m ≡ last_of (m ∷ xs)
first_or_lem [] m = refl
first_or_lem (x ∷ xs) m = refl

module _ (k : Kernel) (i m buffer size : ℕ) (unused : List ℕ) where
  -- by the cases of an empty queue and of one with messages
  linked :
      (sent : List ℕ)
      → IsQueue k i sent (m ∷ unused)
      → Chain
          (send_out k i m buffer size).msg_next
          (first_or (k.message_queue i).head m)
          (sent ++ m ∷ [])
        × Chain (send_out k i m buffer size).msg_next (k.msg_next m) unused
  linked [] s =
      rw (s.head, s.tail)
        (
          (refl, if_pos (ℕ_discrete m m) refl none (k.msg_next m)),
          Chain-frame k.msg_next m none (k.msg_next m) unused s.distinct.0 s.free.1,
        )
  linked (x ∷ xs) s =
      let d = Distinct-delete m (x ∷ xs) unused s.distinct in
      let o = Avoids-split m (x ∷ xs) unused d.1 in
      let next0 : ℕ → Option ℕ = λ a. ite (ℕ_discrete a m) none (k.msg_next a) in
      let first = Chain-frame k.msg_next m none (k.message_queue i).head (x ∷ xs) o.0 s.head in
      let rest = Chain-frame k.msg_next m none (k.msg_next m) unused o.1 s.free.1 in
      let kept : first_or (k.message_queue i).head m ≡ (k.message_queue i).head =
        ap (λ h. first_or h m) s.head.0 ∙ sym s.head.0 in
      let ends : Chain (link_after (some (last_or x xs)) m next0) (k.message_queue i).head
          (x ∷ (xs ++ m ∷ [])) =
        Chain-append next0 m (k.message_queue i).head x xs
          (if_pos (ℕ_discrete m m) refl none (k.msg_next m)) (Distinct-front (x ∷ xs) unused d.0)
          o.0 first in
      let others : Chain (link_after (some (last_or x xs)) m next0) (k.msg_next m) unused =
        Chain-frame next0 (last_or x xs) (some m) (k.msg_next m) unused
          (last_or-Avoids x xs unused d.0) rest in
      (
        subst (λ h. Chain (send_out k i m buffer size).msg_next h (x ∷ (xs ++ m ∷ []))) (sym kept)
            (subst (λ t. Chain (link_after t m next0) (k.message_queue i).head (x ∷ (xs ++ m ∷ [])))
              (sym s.tail) ends),
        subst (λ t. Chain (link_after t m next0) (k.msg_next m) unused) (sym s.tail) others,
      )

  module _ (sent : List ℕ) (s : IsQueue k i sent (m ∷ unused)) where
    room : Distinct ((sent ++ m ∷ []) ++ unused)
    room = rw snoc_assoc s.distinct

    short : length ((sent ++ m ∷ []) ++ unused) < 2 ^ 16
    short = rw snoc_assoc s.word

    count : length sent + 1 < 2 ^ 16
    count = omega (arith, s.word, length-append sent unused m, length-le sent unused)

    pub send_out-IsQueue : IsQueue (send_out k i m buffer size) i (sent ++ m ∷ []) unused
    send_out-IsQueue =
        let here = ℕ_discrete i i in
        let l = linked sent s in
        record {
          head =
              subst (λ h. Chain (send_out k i m buffer size).msg_next h (sent ++ m ∷ []))
                (sym (if_pos here refl _ _)) l.0;
          tail = if_pos here refl (some m) _ ∙ sym (last_of-append sent m);
          free =
              subst (λ h. Chain (send_out k i m buffer size).msg_next h unused)
                (sym (if_pos here refl _ _)) l.1;
          distinct = room;
          count = if_pos here refl _ _ ∙ omega (arith, s.count, count, length-snoc sent m);
          word = short;
        }

    urgent_out-IsQueue : IsQueue (urgent_out k i m buffer size) i (m ∷ sent) unused
    urgent_out-IsQueue =
        let here = ℕ_discrete i i in
        let d = Distinct-delete m sent unused s.distinct in
        let o = Avoids-split m sent unused d.1 in
        record {
          head = (
            if_pos here refl (some m) _,
            subst (λ h. Chain (urgent_out k i m buffer size).msg_next h sent)
                (sym (if_pos (ℕ_discrete m m) refl _ _))
                (Chain-frame k.msg_next m (k.message_queue i).head (k.message_queue i).head sent o.0
                  s.head),
          );
          tail = if_pos here refl _ _ ∙ ap (λ t. first_or t m) s.tail ∙ first_or_lem sent m;
          free =
              subst (λ h. Chain (urgent_out k i m buffer size).msg_next h unused)
                (sym (if_pos here refl _ _))
                (Chain-frame k.msg_next m (k.message_queue i).head (k.msg_next m) unused o.1
                  s.free.1);
          distinct = (d.1, d.0);
          count = if_pos here refl _ _ ∙ omega (arith, s.count, count);
          word = omega (arith, s.word, length-append sent unused m);
        }

  module _ (sent : List ℕ) (filled : 0 < size) (given : 0 < buffer)
      (fits : size ≤ (k.message_queue i).msg_size) (w : IsWaiting k i []) where
    -- With a free message and nobody waiting `rt_mq_send` of at least one byte and at most the size
    -- of a message, from a buffer that is not RT_NULL and that the message does not overlap or
    -- starts in front of, puts a message behind the others, and the bytes of the buffer into it.
    -- The free messages are one fewer, and all other memory is as it was.
    pub mq_send-append :
        (a : ℕ)
        → Forward (m + 4) buffer size
        → IsQueue k i sent (m ∷ unused)
        → (mq_send i buffer size k ≡ some (eok, send_out k i m buffer size))
          × IsQueue (send_out k i m buffer size) i (sent ++ m ∷ []) unused
          × ((send_out k i m buffer size).bytes a ≡ (
              if leb (m + 4) a && ltb a (m + 4 + size)
              then k.bytes (buffer + (a - (m + 4)))
              else k.bytes a))
    unfolding mq_send mb_wake
    mq_send-append a apart s = (
      rw (not_zero buffer given) (
          rw (not_zero size filled) (
            rw (not_less (k.message_queue i).msg_size size fits)
              (rw s.free.0 (rw (list_isempty_lem k.links (suspended i) [] w.ring) refl)))),
      send_out-IsQueue sent s,
      memcpy-copied (m + 4) buffer size k.bytes apart a,
    )

    -- Under the same conditions `rt_mq_urgent` puts the message in front of the others.
    pub mq_urgent-prepend :
        (a : ℕ)
        → Forward (m + 4) buffer size
        → IsQueue k i sent (m ∷ unused)
        → (mq_urgent i buffer size k ≡ some (eok, urgent_out k i m buffer size))
          × IsQueue (urgent_out k i m buffer size) i (m ∷ sent) unused
          × ((urgent_out k i m buffer size).bytes a ≡ (
              if leb (m + 4) a && ltb a (m + 4 + size)
              then k.bytes (buffer + (a - (m + 4)))
              else k.bytes a))
    unfolding mq_urgent mb_wake
    mq_urgent-prepend a apart s = (
      rw (not_zero buffer given) (
          rw (not_zero size filled) (
            rw (not_less (k.message_queue i).msg_size size fits)
              (rw s.free.0 (rw (list_isempty_lem k.links (suspended i) [] w.ring) refl)))),
      urgent_out-IsQueue sent s,
      memcpy-copied (m + 4) buffer size k.bytes apart a,
    )

-- Without a free message `rt_mq_send` returns -RT_EFULL and changes nothing.
pub mq_send-full :
    (k : Kernel) (i buffer size : ℕ) (sent : List ℕ)
    → 0 < buffer
    → 0 < size
    → size ≤ (k.message_queue i).msg_size
    → IsQueue k i sent []
    → mq_send i buffer size k ≡ some (efull, k)
unfolding mq_send
mq_send-full k i buffer size sent given filled fits s = rw (not_zero buffer given) (
    rw (not_zero size filled)
      (rw (not_less (k.message_queue i).msg_size size fits) (rw s.free refl)))
