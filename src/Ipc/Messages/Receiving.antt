-- ===== src/Ipc/Messages/Receiving.antt =====
-- `rt_mq_recv` as an operation on the list of messages.
use rtthread_nano_to_riscv.Prelude.{
  not_zero, not_less, ℕ, suc, ◌+◌, ◌-◌, ◌%◌, ◌^◌, ◌<◌, ◌≤◌, ◌≡◌, ◌≢◌, refl, sym, ap, ◌∙◌, subst,
  false, ◌==◌, ltb, leb, ◌&&◌, if◌then◌else◌, ℕ_discrete, if_pos, some, List, [], ◌∷◌, length,
  arith, Avoids, Avoids-split, Distinct-insert,
}
use rtthread_nano_to_riscv.Kernel.{Kernel, eok}
use rtthread_nano_to_riscv.Kservice.Memory.{memcpy}
use rtthread_nano_to_riscv.Kservice.Memory.Copying.{Forward, memcpy-copied}
use rtthread_nano_to_riscv.Ipc.Waiting.{IsWaiting}
use rtthread_nano_to_riscv.Ipc.Mailbox.{returns}
use rtthread_nano_to_riscv.Ipc.Messages.{
  set_head, set_tail, set_messages, push_free, tail_without, receive_loop, mq_send, mq_recv,
}
use rtthread_nano_to_riscv.Service.Chain.{last_or-ne, Chain, Chain-frame, last_or, last_of}
use rtthread_nano_to_riscv.Ipc.Messages.Chain.{length-append, length-le, IsQueue}
use rtthread_nano_to_riscv.Ipc.Messages.Sending.{send_out, mq_send-append}

-- the state after `rt_mq_recv` of the message `m`
abbrev pub receive_out : Kernel → ℕ → ℕ → ℕ → ℕ → Kernel
receive_out k i m buffer size =
    push_free i m
      (record (set_messages i (((k.message_queue i).entry + 2 ^ 16 - 1) % 2 ^ 16)
        (set_tail i (tail_without (k.message_queue i).tail m) (set_head i (k.msg_next m) k))) {
          bytes = memcpy buffer (m + 4) size k.bytes;
        })

not_empty : (n l : ℕ) → n ≡ suc l → (n == 0) ≡ false
not_empty n l e = ground arith

-- the last of the other messages
tail_without-last :
    (m : ℕ) (sent : List ℕ) → Avoids m sent → tail_without (last_of (m ∷ sent)) m ≡ last_of sent
tail_without-last m [] o = ground arith
tail_without-last m (x ∷ xs) o =
    let ne = other (last_or x xs) m (λ e. last_or-ne m x xs o (sym e)) in rw ne refl
  where
    other : (a b : ℕ) → a ≢ b → (a == b) ≡ false
    other a b ne = ground arith

module _ (k : Kernel) (i m : ℕ) (sent unused : List ℕ) (s : IsQueue k i (m ∷ sent) unused) where
  pub receive_out-IsQueue :
      (buffer size : ℕ) → IsQueue (receive_out k i m buffer size) i sent (m ∷ unused)
  receive_out-IsQueue buffer size =
      let here = ℕ_discrete i i in
      let o = Avoids-split m sent unused s.distinct.0 in
      record {
        head =
            subst (λ h. Chain (receive_out k i m buffer size).msg_next h sent)
              (sym (if_pos here refl _ _))
              (Chain-frame k.msg_next m (k.message_queue i).free (k.msg_next m) sent o.0 s.head.1);
        tail =
            if_pos here refl _ _ ∙ ap (λ t. tail_without t m) s.tail ∙ tail_without-last m sent o.0;
        free = (
          if_pos here refl (some m) _,
          subst (λ h. Chain (receive_out k i m buffer size).msg_next h unused)
              (sym (if_pos (ℕ_discrete m m) refl _ _))
              (Chain-frame k.msg_next m (k.message_queue i).free (k.message_queue i).free unused o.1
                s.free),
        );
        distinct = Distinct-insert m sent unused s.distinct.1 s.distinct.0;
        count = if_pos here refl _ _ ∙ omega (arith, s.count, s.word, length-le sent unused);
        word = omega (arith, s.word, length-append sent unused m);
      }

  -- From a queue with messages `rt_mq_recv` takes the first one, whatever the time to wait, and copies its
  -- bytes to the buffer. The others stay in their order, the message is free again, and all other
  -- memory is as it was.
  pub mq_recv-first :
      (fuel buffer size timeout a : ℕ)
      → 0 < buffer
      → 0 < size
      → size ≤ (k.message_queue i).msg_size
      → Forward buffer (m + 4) size
      → (mq_recv fuel i buffer size timeout k ≡ some (returns eok, receive_out k i m buffer size))
        × IsQueue (receive_out k i m buffer size) i sent (m ∷ unused)
        × ((receive_out k i m buffer size).bytes a ≡ (
            if leb buffer a && ltb a (buffer + size)
            then k.bytes (m + 4 + (a - buffer))
            else k.bytes a))
  unfolding mq_recv
  mq_recv-first fuel buffer size timeout a given filled fits apart =
      let full = not_empty (k.message_queue i).entry (length sent) s.count in
      (
        rw (not_zero buffer given) (
            rw (not_zero size filled) (
              rw full (
                rw (full, receive_loop)
                  (rw s.head.0 (rw (not_less (k.message_queue i).msg_size size fits) refl))))),
        receive_out-IsQueue buffer size,
        memcpy-copied buffer (m + 4) size k.bytes apart a,
      )

-- A message of at least one byte and at most the size of a message, that is sent to an empty queue
-- with nobody waiting and received at once, arrives in the other buffer as it was, and the queue is
-- empty again with the same free messages. The buffers are not RT_NULL, and each copy is between
-- ranges that do not overlap, or to a lower address.
pub mq_recv-mq_send :
    (k : Kernel) (fuel i m source target size timeout a : ℕ) (unused : List ℕ)
    → 0 < source
    → 0 < target
    → 0 < size
    → size ≤ (k.message_queue i).msg_size
    → IsQueue k i [] (m ∷ unused)
    → IsWaiting k i []
    → Forward (m + 4) source size
    → Forward target (m + 4) size
    → a < size
    → (mq_send i source size k ≡ some (eok, send_out k i m source size))
      × (mq_recv fuel i target size timeout (send_out k i m source size)
          ≡ some (returns eok, receive_out (send_out k i m source size) i m target size))
      × IsQueue (receive_out (send_out k i m source size) i m target size) i [] (m ∷ unused)
      × ((receive_out (send_out k i m source size) i m target size).bytes (target + a)
          ≡ k.bytes (source + a))
mq_recv-mq_send k fuel i m source target size timeout a unused h1 h2 h3 fits s w f1 f2 l =
    let sent = mq_send-append k i m source size unused [] h3 h1 fits w (m + 4 + a) f1 s in
    let got =
      mq_recv-first (send_out k i m source size) i m [] unused sent.1 fuel target size timeout
        (target + a) h2 h3 fits f2 in
    (
      sent.0,
      got.0,
      got.1,
      got.2
          ∙ inside target size a (m + 4) (send_out k i m source size).bytes l
          ∙ sent.2
          ∙ inside (m + 4) size a source k.bytes l,
    )
  where
    inside :
        (d size a s : ℕ) (f : ℕ → ℕ)
        → a < size
        → (if leb d (d + a) && ltb (d + a) (d + size) then f (s + (d + a - d)) else f (d + a))
          ≡ f (s + a)
    inside d size a s f l = ground arith
