-- ===== src/Tests/Mails.antt =====
-- Mailboxes at concrete states.
use rtthread_nano_to_riscv.Prelude.{◌+◌, ◌≡◌, refl, some, [], ◌∷◌, ◌++◌, arith}
use rtthread_nano_to_riscv.Kernel.{Kernel, eok, pure, ◌>>◌}
use rtthread_nano_to_riscv.Scheduler.{schedule}
use rtthread_nano_to_riscv.Scheduler.Queues.{IsReady, put}
use rtthread_nano_to_riscv.Thread.Resume.{resume_out}
use rtthread_nano_to_riscv.Ipc.Waiting.{IsWaiting}
use rtthread_nano_to_riscv.Ipc.Mailbox.{returns, mb_send_wait, mb_recv}
use rtthread_nano_to_riscv.Ipc.Mailbox.Ring.{IsMailbox}
use rtthread_nano_to_riscv.Ipc.Mailbox.Queue.{
  put_out, get_out, mb_send_wait-append, mb_recv-first, mb_send_wait-resumes,
}
use rtthread_nano_to_riscv.Tests.States.{blank, two_queues}
use rtthread_nano_to_riscv.Tests.Waiting.{
  one_waits, one_waits-IsReady, one_waits-IsRunnable, nine_waits, sleeps_9,
}

-- one mail, at the end of the buffer of two
abbrev one_mail : Kernel
one_mail = record blank {
  mailbox = λ i. record {
    flag = 0;
    msg_pool = λ o. 7;
    size = 2;
    entry = 1;
    in_offset = 0;
    out_offset = 1;
    senders = 100 + i;
  };
}

one_mail-IsMailbox : IsMailbox (one_mail.mailbox 0) (7 ∷ [])
one_mail-IsMailbox = record {
  word = omega arith;
  count = refl;
  room = omega arith;
  out = omega arith;
  next_in = refl;
  stored = (refl, tt);
}

mb_send_wait-append_example :
    (mb_send_wait 1 0 8 5 one_mail ≡ some (returns eok, put_out one_mail 0 8))
    × IsMailbox ((put_out one_mail 0 8).mailbox 0) (7 ∷ 8 ∷ [])
mb_send_wait-append_example =
    mb_send_wait-append one_mail 1 0 8 5 (7 ∷ []) one_mail-IsMailbox (omega arith)
      (record { ring = (refl, (tt, tt)); stats = tt })

mb_recv-first_example :
    (mb_recv 1 0 5 one_mail ≡ some (returns (eok, some 7), get_out one_mail 0))
    × IsMailbox ((get_out one_mail 0).mailbox 0) []
mb_recv-first_example =
    mb_recv-first one_mail 1 0 7 5 [] one_mail-IsMailbox
      (record { ring = (refl, (tt, tt)); stats = tt })

no_mail : IsMailbox (one_waits.mailbox 0) []
no_mail = record {
  word = omega arith;
  count = refl;
  room = omega arith;
  out = omega arith;
  next_in = refl;
  stored = tt;
}

mb_send_wait-resumes_example :
    (mb_send_wait 1 0 8 5 one_waits
      ≡ (schedule >> pure (returns eok)) (resume_out (put_out one_waits 0 8) 9 5))
    × IsMailbox ((resume_out (put_out one_waits 0 8) 9 5).mailbox 0) (8 ∷ [])
    × IsReady (resume_out (put_out one_waits 0 8) 9 5) (put 5 (two_queues 5 ++ 9 ∷ []) two_queues)
    × IsWaiting (resume_out (put_out one_waits 0 8) 9 5) 0 []
mb_send_wait-resumes_example =
    mb_send_wait-resumes one_waits two_queues 0 9 5 [] sleeps_9 one_waits-IsReady
      one_waits-IsRunnable nine_waits 1 8 5 no_mail
