-- ===== src/Ipc/Mailbox/Queue.antt =====
-- `rt_mb_send_wait` and `rt_mb_recv` as operations on the queue of mails.
use rtthread_nano_to_riscv.Prelude.{
  ℕ, suc, ◌+◌, ◌-◌, ◌%◌, ◌^◌, ◌<◌, ◌≡◌, refl, sym, ap, ◌∙◌, true, false, ◌==◌, ite, ℕ_discrete,
  if_pos, none, some, subst, List, [], ◌∷◌, ◌++◌, map, length, arith,
}
use rtthread_nano_to_riscv.Service.Node.{suspended, tlist}
use rtthread_nano_to_riscv.Service.Ring.{list_isempty_lem}
use rtthread_nano_to_riscv.Kernel.{Kernel, Mailbox, pure, ◌>>◌, eok, etimeout, efull}
use rtthread_nano_to_riscv.Scheduler.{schedule}
use rtthread_nano_to_riscv.Scheduler.Queues.{Queues, IsReady, IsRunnable, put}
use rtthread_nano_to_riscv.Thread.Resume.{IsSuspended, resume_out}
use rtthread_nano_to_riscv.Ipc.Waiting.{IsWaiting}
use rtthread_nano_to_riscv.Ipc.Resume.{ipc_list_resume-IsReady}
use rtthread_nano_to_riscv.Ipc.Mailbox.{
  set_mail, set_in, set_out, set_entry, step, returns, send_loop, recv_loop, mb_send_wait, mb_recv,
}
use rtthread_nano_to_riscv.Ipc.Mailbox.Ring.{
  slot, slot-step, Stored, IsMailbox, step-slot, step-lt, stored_at, Stored-append, Stored-step,
}

Stored-congr :
    (p p' : ℕ → ℕ) (size out j : ℕ) (xs : List ℕ)
    → ((o : ℕ) → p' o ≡ p o)
    → Stored p size out j xs
    → Stored p' size out j xs
Stored-congr p p' size out j [] e s = tt
Stored-congr p p' size out j (x ∷ xs) e s =
    (e (slot size out j) ∙ s.0, Stored-congr p p' size out (suc j) xs e s.1)

length-snoc : (xs : List ℕ) (v : ℕ) → length (xs ++ v ∷ []) ≡ suc (length xs)
length-snoc [] v = refl
length-snoc (x ∷ xs) v = ap suc (length-snoc xs v)

-- the states after a mail was stored, and after one was taken out
abbrev pub put_out : Kernel → ℕ → ℕ → Kernel
put_out k i v =
    let mb = k.mailbox i in
    set_entry i ((mb.entry + 1) % 2 ^ 16)
      (set_in i (step mb.size mb.in_offset) (set_mail i mb.in_offset v k))

abbrev pub get_out : Kernel → ℕ → Kernel
get_out k i =
    let mb = k.mailbox i in
    set_entry i ((mb.entry + 2 ^ 16 - 1) % 2 ^ 16) (set_out i (step mb.size mb.out_offset) k)

module _ (k : Kernel) (i : ℕ) where
  abbrev mb : Mailbox
  mb = k.mailbox i

  pub put_out-IsMailbox :
      (mails : List ℕ) (v : ℕ)
      → IsMailbox mb mails
      → length mails < mb.size
      → IsMailbox ((put_out k i v).mailbox i) (mails ++ v ∷ [])
  put_out-IsMailbox mails v m l =
      let here = ℕ_discrete i i in
      let size = length-snoc mails v in
      record {
        word = m.word;
        count = if_pos here refl _ mb.entry ∙ omega (arith, m.count, m.word, l, size);
        room = omega (arith, size, l);
        out = m.out;
        next_in =
            if_pos here refl _ mb.in_offset
            ∙ ap (step mb.size) m.next_in
            ∙ step-slot mb.size mb.out_offset (length mails) m.word m.out l
            ∙ ap (slot mb.size mb.out_offset) (sym size);
        stored =
            Stored-congr (stored_at (slot mb.size mb.out_offset (length mails)) v mb.msg_pool)
              ((put_out k i v).mailbox i).msg_pool mb.size mb.out_offset 0 (mails ++ v ∷ [])
              (λ o.
                if_pos here refl _ (mb.msg_pool o)
                ∙ ap (λ at. ite (ℕ_discrete o at) v (mb.msg_pool o)) m.next_in)
              (Stored-append mb.msg_pool mb.size mb.out_offset 0 (length mails) v mails m.out
                (omega arith) l m.stored);
      }

  pub get_out-IsMailbox :
      (x : ℕ) (mails : List ℕ)
      → IsMailbox mb (x ∷ mails)
      → IsMailbox ((get_out k i).mailbox i) mails × (mb.msg_pool mb.out_offset ≡ x)
  get_out-IsMailbox x mails m =
      let here = ℕ_discrete i i in
      let moved = if_pos here refl (step mb.size mb.out_offset) mb.out_offset in
      (
        record {
          word = m.word;
          count = if_pos here refl _ mb.entry ∙ omega (arith, m.count, m.word, m.room);
          room = omega (arith, m.room);
          out = subst (λ o. o < mb.size) (sym moved) (step-lt mb.size mb.out_offset m.out);
          next_in =
              m.next_in
              ∙ sym (slot-step mb.size mb.out_offset (length mails) m.word m.out m.room)
              ∙ ap (λ o. slot mb.size o (length mails)) (sym moved);
          stored =
              subst (λ o. Stored mb.msg_pool mb.size o 0 mails) (sym moved)
                (Stored-step mb.msg_pool mb.size mb.out_offset 0 mails m.word m.out
                  (omega (arith, m.room)) m.stored.1);
        },
        ap mb.msg_pool (sym (first mb.size mb.out_offset m.out)) ∙ m.stored.0,
      )
    where
      first : (size out : ℕ) → out < size → slot size out 0 ≡ out
      first size out h = ground arith

-- `mb->entry == mb->size`, and an empty mailbox
not_full : (n size : ℕ) → n < size → (n == size) ≡ false
not_full n size l = ground arith

same : (n size : ℕ) → n ≡ size → (n == size) ≡ true
same n size e = ground arith

-- To a mailbox that is not full and that nobody waits for, `rt_mb_send_wait` adds the mail behind the others
-- and returns RT_EOK, whatever the time to wait.
pub mb_send_wait-append :
    (k : Kernel) (fuel i v timeout : ℕ) (mails : List ℕ)
    → IsMailbox (k.mailbox i) mails
    → length mails < (k.mailbox i).size
    → IsWaiting k i []
    → (mb_send_wait fuel i v timeout k ≡ some (returns eok, put_out k i v))
      × IsMailbox ((put_out k i v).mailbox i) (mails ++ v ∷ [])
unfolding mb_send_wait
mb_send_wait-append k fuel i v timeout mails m l w =
    let free = not_full (k.mailbox i).entry (k.mailbox i).size (omega (arith, m.count, l)) in
    let empty = list_isempty_lem k.links (suspended i) [] w.ring in
    (rw free (rw (free, send_loop) (rw empty refl)), put_out-IsMailbox k i mails v m l)

-- A full mailbox is not written: without time to wait the call returns -RT_EFULL and changes nothing.
pub mb_send_wait-full :
    (k : Kernel) (fuel i v : ℕ) (mails : List ℕ)
    → IsMailbox (k.mailbox i) mails
    → length mails ≡ (k.mailbox i).size
    → mb_send_wait fuel i v 0 k ≡ some (returns efull, k)
unfolding mb_send_wait
mb_send_wait-full k fuel i v mails m l =
    let full = same (k.mailbox i).entry (k.mailbox i).size (m.count ∙ l) in rw full refl

-- From a mailbox that holds mails and that nobody waits to send to, `rt_mb_recv` takes the first mail,
-- and the others stay in their order.
pub mb_recv-first :
    (k : Kernel) (fuel i x timeout : ℕ) (mails : List ℕ)
    → IsMailbox (k.mailbox i) (x ∷ mails)
    → IsWaiting k (k.mailbox i).senders []
    → (mb_recv fuel i timeout k ≡ some (returns (eok, some x), get_out k i))
      × IsMailbox ((get_out k i).mailbox i) mails
unfolding mb_recv
mb_recv-first k fuel i x timeout mails m w =
    let full = not_empty (k.mailbox i).entry (length mails) m.count in
    let out = get_out-IsMailbox k i x mails m in
    let empty = list_isempty_lem k.links (suspended (k.mailbox i).senders) [] w.ring in
    (
      rw full (
          rw (full, recv_loop)
            (rw empty (ap (λ v. some (returns (eok, some v), get_out k i)) out.1))),
      out.0,
    )
  where
    not_empty : (n l : ℕ) → n ≡ suc l → (n == 0) ≡ false
    not_empty n l e = ground arith

-- An empty mailbox gives -RT_ETIMEOUT and changes nothing where there is no time to wait.
pub mb_recv-empty :
    (k : Kernel) (fuel i : ℕ)
    → IsMailbox (k.mailbox i) []
    → mb_recv fuel i 0 k ≡ some (returns (etimeout, none), k)
unfolding mb_recv
mb_recv-empty k fuel i m = let e = same (k.mailbox i).entry 0 m.count in rw e refl

module _ (k : Kernel) (q : Queues) (i u p : ℕ) (us : List ℕ) (sus : IsSuspended k u p)
    (r : IsReady k q) (n : IsRunnable k q) (w : IsWaiting k i (u ∷ us)) where
  -- With threads waiting for mails and no mail in the mailbox, `rt_mb_send_wait` stores the
  -- mail and the thread that waits first becomes READY to take it; the scheduler chooses again, and the
  -- ready table stays well formed.
  pub mb_send_wait-resumes :
      (fuel v timeout : ℕ)
      → IsMailbox (k.mailbox i) []
      → (mb_send_wait fuel i v timeout k
          ≡ (schedule >> pure (returns eok)) (resume_out (put_out k i v) u p))
        × IsMailbox ((resume_out (put_out k i v) u p).mailbox i) (v ∷ [])
        × IsReady (resume_out (put_out k i v) u p) (put p (q p ++ u ∷ []) q)
        × IsWaiting (resume_out (put_out k i v) u p) i us
  unfolding mb_send_wait
  mb_send_wait-resumes fuel v timeout m =
      let k1 : Kernel = record (put_out k i v) { irq = false } in
      let out =
        ipc_list_resume-IsReady k1 q i u p us
          (record {
            in_range = sus.in_range;
            priority = sus.priority;
            mask = sus.mask;
            byte = sus.byte;
            stat = sus.stat;
          })
          (record {
            linked = r.linked;
            rings = r.rings;
            bits = r.bits;
            width = r.width;
            queued = r.queued;
          })
          (record { stats = n.stats }) (record { ring = w.ring; stats = w.stats }) in
      let free = not_full (k.mailbox i).entry (k.mailbox i).size (omega (arith, m.count, m.out)) in
      let o = out.1 in
      (
        rw free (
            rw (free, send_loop)
              (rw (list_isempty_lem k.links (suspended i) (map tlist (u ∷ us)) w.ring)
                (rw out.0 refl))),
        put_out-IsMailbox k i [] v m (omega (arith, m.out)),
        record {
          linked = o.linked;
          rings = o.rings;
          bits = o.bits;
          width = o.width;
          queued = o.queued;
        },
        record { ring = out.3.ring; stats = out.3.stats },
      )
