-- ===== src/Tests/States.antt =====
-- The states that the tests start from.
use rtthread_nano_to_riscv.Prelude.{
  ℕ, ◌+◌, ◌%◌, ◌^◌, refl, true, none, [], ◌∷◌, arith, ℕ_discrete, ◌==◌, if◌then◌else◌,
}
use rtthread_nano_to_riscv.Prelude.Bits.{bit-zero}
use rtthread_nano_to_riscv.Service.Node.{node_eq}
use rtthread_nano_to_riscv.Service.Links.{Links, insert_before}
use rtthread_nano_to_riscv.Service.Pointers.{IsLinked}
use rtthread_nano_to_riscv.Kernel.{Kernel, null, eok}
use rtthread_nano_to_riscv.Scheduler.Queues.{Queues, IsReady, IsRunnable, put}
use rtthread_nano_to_riscv.Scheduler.Insert.{
  IsInsertable, queue_up, queue_up-IsReady, queue_up-IsRunnable,
}
use rtthread_nano_to_riscv.Timer.Start.{IsTimers}

-- every node on its own
abbrev pub no_links : Links
no_links = record { next = λ a. a; prev = λ a. a }

pub no_links-IsLinked : IsLinked no_links
no_links-IsLinked = record { prev_next = λ a. refl; next_prev = λ a. refl }

-- thread `t` has priority 3, but thread 9 has priority 5
abbrev pub priority_of : ℕ → ℕ
priority_of t = if t == 9 then 5 else 3

abbrev pub blank : Kernel
blank = record {
  links = no_links;
  thread = λ t. record {
    stat = 2;
    current_priority = priority_of t;
    init_priority = priority_of t;
    number_mask = 2 ^ priority_of t;
    init_tick = 5;
    remaining_tick = 5;
    error = eok;
    event_set = 0;
    event_info = 0;
  };
  timer = λ t. record { flag = 0; init_tick = 20; timeout_tick = 0 };
  sem = λ i. record { value = 0; flag = 0 };
  mutex = λ i. record { flag = 0; value = 1; original_priority = 0xff; hold = 0; owner = none };
  event = λ i. record { flag = 0; set = 0 };
  mailbox = λ i. record {
    flag = 0;
    msg_pool = λ o. 0;
    size = 2;
    entry = 0;
    in_offset = 0;
    out_offset = 0;
    senders = 100 + i;
  };
  mempool = λ i. record {
    start_address = 0;
    size = 0;
    block_size = 4;
    block_list = null;
    block_total_count = 0;
    block_free_count = 0;
    suspend_thread_count = 0;
  };
  message_queue = λ i. record {
    flag = 0;
    msg_pool = 0;
    msg_size = 8;
    max_msgs = 0;
    entry = 0;
    head = none;
    tail = none;
    free = none;
  };
  block_word = λ a. null;
  object_type = λ a. 0;
  msg_next = λ a. none;
  bytes = λ a. a % 2 ^ 8;
  current = none;
  current_priority = 31;
  ready_group = 0;
  lock_nest = 0;
  interrupt_nest = 0;
  tick = 0xfffffff8;
  random_nr = 0;
  irq = true;
  switches = [];
}

abbrev pub no_queues : Queues
no_queues p = []

pub blank-IsReady : IsReady blank no_queues
blank-IsReady = record {
  linked = no_links-IsLinked;
  rings = λ p h. (refl, (tt, tt));
  bits = λ p h. bit-zero p;
  width = omega arith;
  queued = λ p h. tt;
}

pub first_fits : IsInsertable blank 1 3
first_fits = record {
  in_range = omega arith;
  priority = refl;
  mask = refl;
  byte = omega arith;
  alone = (refl, refl);
}

-- thread 1 on its queue
abbrev pub one_ready : Kernel
one_ready = queue_up blank 1 3

abbrev pub one_queue : Queues
one_queue = put 3 (1 ∷ []) no_queues

pub one_ready-IsReady : IsReady one_ready one_queue
one_ready-IsReady = queue_up-IsReady blank no_queues 1 3 first_fits blank-IsReady

pub blank-IsRunnable : IsRunnable blank no_queues
blank-IsRunnable = record { stats = λ p h. tt }

pub one_ready-IsRunnable : IsRunnable one_ready one_queue
one_ready-IsRunnable =
    queue_up-IsRunnable blank no_queues 1 3 first_fits blank-IsReady blank-IsRunnable

pub second_fits : IsInsertable one_ready 2 3
unfolding ℕ_discrete insert_before node_eq
second_fits = record {
  in_range = omega arith;
  priority = refl;
  mask = refl;
  byte = omega arith;
  alone = (refl, refl);
}

-- threads 1 and 2 on their queue, in this order
abbrev pub two_ready : Kernel
two_ready = queue_up one_ready 2 3

abbrev pub two_queues : Queues
two_queues = put 3 (1 ∷ 2 ∷ []) one_queue

pub two_ready-IsReady : IsReady two_ready two_queues
unfolding ℕ_discrete
two_ready-IsReady = queue_up-IsReady one_ready one_queue 2 3 second_fits one_ready-IsReady

pub two_ready-IsRunnable : IsRunnable two_ready two_queues
unfolding ℕ_discrete
two_ready-IsRunnable =
    queue_up-IsRunnable one_ready one_queue 2 3 second_fits one_ready-IsReady one_ready-IsRunnable

pub blank-IsTimers : IsTimers blank 0xfffffff8 []
blank-IsTimers = record {
  linked = no_links-IsLinked;
  ring = (refl, (tt, tt));
  base = omega arith;
  window = tt;
  sorted = tt;
}
