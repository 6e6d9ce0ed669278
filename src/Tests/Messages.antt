-- ===== src/Tests/Messages.antt =====
-- Message queues at concrete states.
use rtthread_nano_to_riscv.Prelude.{
  ◌+◌, ◌-◌, ◌≡◌, ◌&&◌, leb, ltb, ◌==◌, if◌then◌else◌, refl, some, none, [], ◌∷◌, arith, inl, inr,
}
use rtthread_nano_to_riscv.Service.Node.{suspended}
use rtthread_nano_to_riscv.Service.Ring.{Ring}
use rtthread_nano_to_riscv.Kernel.{Kernel, eok}
use rtthread_nano_to_riscv.Ipc.Waiting.{IsWaiting}
use rtthread_nano_to_riscv.Ipc.Mailbox.{returns}
use rtthread_nano_to_riscv.Ipc.Messages.{mq_init, mq_send, mq_recv}
use rtthread_nano_to_riscv.Ipc.Messages.Chain.{IsQueue}
use rtthread_nano_to_riscv.Ipc.Messages.Init.{
  pushed, message_size, message_count, init_out, mq_init-IsQueue,
}
use rtthread_nano_to_riscv.Ipc.Messages.Sending.{send_out, mq_send-append}
use rtthread_nano_to_riscv.Ipc.Messages.Receiving.{receive_out, mq_recv-mq_send}
use rtthread_nano_to_riscv.Tests.States.{blank}

-- three messages of 8 bytes at 1000, 1012 and 1024, of which the last one is sent, and the memory from 2000 on
abbrev one_sent : Kernel
one_sent = record blank {
  message_queue = λ i. record {
    flag = 0;
    msg_pool = 1000;
    msg_size = 8;
    max_msgs = 3;
    entry = 1;
    head = some 1024;
    tail = some 1024;
    free = some 1012;
  };
  msg_next = λ a. if a == 1012 then some 1000 else none;
}

one_sent-IsQueue : IsQueue one_sent 0 (1024 ∷ []) (1012 ∷ 1000 ∷ [])
one_sent-IsQueue = record {
  head = (refl, refl);
  tail = refl;
  free = (refl, (refl, refl));
  distinct = (
    ((λ e. omega (arith, e)), ((λ e. omega (arith, e)), tt)),
    (((λ e. omega (arith, e)), tt), (tt, tt)),
  );
  count = refl;
  word = omega arith;
}

nobody : IsWaiting one_sent 0 []
nobody = record { ring = (refl, (tt, tt)); stats = tt }

mq_send-append_example :
    (mq_send 0 2000 5 one_sent ≡ some (eok, send_out one_sent 0 1012 2000 5))
    × IsQueue (send_out one_sent 0 1012 2000 5) 0 (1024 ∷ 1012 ∷ []) (1000 ∷ [])
    × ((send_out one_sent 0 1012 2000 5).bytes 1018 ≡ (
        if leb (1012 + 4) 1018 && ltb 1018 (1012 + 4 + 5)
        then one_sent.bytes (2000 + (1018 - (1012 + 4)))
        else one_sent.bytes 1018))
mq_send-append_example =
    mq_send-append one_sent 0 1012 2000 5 (1000 ∷ []) (1024 ∷ []) (omega arith) (omega arith)
      (omega arith) nobody 1018 (inl (omega arith)) one_sent-IsQueue

-- and the queue with no message sent
abbrev unsent : Kernel
unsent = record one_sent {
  message_queue = λ i. record (one_sent.message_queue i) { entry = 0; head = none; tail = none };
}

unsent-IsQueue : IsQueue unsent 0 [] (1012 ∷ 1000 ∷ [])
unsent-IsQueue = record {
  head = refl;
  tail = refl;
  free = (refl, (refl, refl));
  distinct = (((λ e. omega (arith, e)), tt), (tt, tt));
  count = refl;
  word = omega arith;
}

mq_recv-mq_send_example :
    (mq_send 0 2000 5 unsent ≡ some (eok, send_out unsent 0 1012 2000 5))
    × (mq_recv 1 0 3000 5 7 (send_out unsent 0 1012 2000 5)
        ≡ some (returns eok, receive_out (send_out unsent 0 1012 2000 5) 0 1012 3000 5))
    × IsQueue (receive_out (send_out unsent 0 1012 2000 5) 0 1012 3000 5) 0 [] (1012 ∷ 1000 ∷ [])
    × ((receive_out (send_out unsent 0 1012 2000 5) 0 1012 3000 5).bytes (3000 + 2)
        ≡ unsent.bytes (2000 + 2))
mq_recv-mq_send_example =
    mq_recv-mq_send unsent 1 0 1012 2000 3000 5 7 2 (1000 ∷ []) (omega arith) (omega arith)
      (omega arith) (omega arith) unsent-IsQueue (record { ring = (refl, (tt, tt)); stats = tt })
      (inl (omega arith)) (inr (omega arith)) (omega arith)

mq_init-IsQueue_example :
    (mq_init 0 1000 6 40 0 blank ≡ some (eok, init_out blank 0 1000 6 40 0))
    × IsQueue
        (init_out blank 0 1000 6 40 0)
        0
        []
        (pushed (message_size 6 + 4) 1000 (message_count 40 6) [])
    × Ring (init_out blank 0 1000 6 40 0).links (suspended 0) []
mq_init-IsQueue_example = mq_init-IsQueue blank 0 1000 6 40 0
