-- ===== src/Tests/Pools.antt =====
-- Memory pools at concrete states.
use rtthread_nano_to_riscv.Prelude.{
  ◌≡◌, ◌==◌, if◌then◌else◌, refl, some, none, [], ◌∷◌, ◌++◌, arith, ℕ_discrete,
}
use rtthread_nano_to_riscv.Kernel.{Kernel, null, next_block, of_pool, etimeout, set_error}
use rtthread_nano_to_riscv.Scheduler.{schedule}
use rtthread_nano_to_riscv.Scheduler.Queues.{IsReady, IsRunnable, put}
use rtthread_nano_to_riscv.Thread.Resume.{IsSuspended}
use rtthread_nano_to_riscv.Ipc.Waiting.{IsWaiting}
use rtthread_nano_to_riscv.Mempool.{set_waiting_count, returns, mp_alloc, alloc_wake, mp_free}
use rtthread_nano_to_riscv.Mempool.Blocks.{
  IsPool, alloc_out, free_out, freed_out, mp_free-mp_alloc, alloc_wake-mp_free, mp_free-resumes,
}
use rtthread_nano_to_riscv.Tests.States.{blank, two_queues}
use rtthread_nano_to_riscv.Tests.Waiting.{
  one_waits, one_waits-IsReady, one_waits-IsRunnable, nine_waits, sleeps_9,
}

-- the blocks at 1000 and 1012 are free
abbrev two_free : Kernel
two_free = record blank {
  mempool = λ i. record {
    start_address = 1000;
    size = 24;
    block_size = 8;
    block_list = next_block 1000;
    block_total_count = 2;
    block_free_count = 2;
    suspend_thread_count = 0;
  };
  block_word = λ a. if a == 1000 then next_block 1012 else null;
}

two_free-IsPool : IsPool two_free 0 (1000 ∷ 1012 ∷ [])
two_free-IsPool = record {
  list = refl;
  linked = (refl, (refl, tt));
  distinct = (((λ e. omega (arith, e)), tt), (tt, tt));
  count = refl;
  word = omega arith;
}

mp_free-mp_alloc_example :
    (mp_alloc 1 0 3 two_free ≡ some (returns (some 1004), alloc_out two_free 0 1000))
    × (mp_free 1004 (alloc_out two_free 0 1000)
        ≡ some (tt, free_out (alloc_out two_free 0 1000) 0 1000))
    × IsPool (free_out (alloc_out two_free 0 1000) 0 1000) 0 (1000 ∷ 1012 ∷ [])
mp_free-mp_alloc_example = mp_free-mp_alloc two_free 1 0 1000 3 (1012 ∷ []) two_free-IsPool refl

-- no block is free, the block at 1000 is in use, and one thread is counted as waiting
abbrev used_up : Kernel → Kernel
used_up k = record k {
  mempool = λ i. record {
    start_address = 1000;
    size = 12;
    block_size = 8;
    block_list = null;
    block_total_count = 1;
    block_free_count = 0;
    suspend_thread_count = 1;
  };
  block_word = λ a. of_pool 0;
}

abbrev timed_out : Kernel
timed_out = set_error 1 etimeout (used_up blank)

alloc_wake-mp_free_example :
    (alloc_wake 1 0 1 5 0 timed_out ≡ some (returns none, timed_out))
    × (mp_free 1004 timed_out ≡ none)
unfolding ℕ_discrete
alloc_wake-mp_free_example =
    alloc_wake-mp_free timed_out 1 0 1 1000 5 0 refl (omega arith) (refl, (tt, tt)) refl

abbrev short : Kernel
short = used_up one_waits

short-IsReady : IsReady short two_queues
short-IsReady =
    let r = one_waits-IsReady in
    record { linked = r.linked; rings = r.rings; bits = r.bits; width = r.width; queued = r.queued }

short-IsRunnable : IsRunnable short two_queues
short-IsRunnable = record { stats = one_waits-IsRunnable.stats }

short-IsSuspended : IsSuspended short 9 5
short-IsSuspended =
    let s = sleeps_9 in
    record {
      in_range = s.in_range;
      priority = s.priority;
      mask = s.mask;
      byte = s.byte;
      stat = s.stat;
    }

short-IsWaiting : IsWaiting short 0 (9 ∷ [])
short-IsWaiting = record { ring = nine_waits.ring; stats = nine_waits.stats }

abbrev served : Kernel
served = set_waiting_count 0 0 (
    freed_out short two_queues 0 1000 9 5 [] [] short-IsSuspended short-IsReady short-IsRunnable
      short-IsWaiting)

no_block : IsPool short 0 []
no_block = record { list = refl; linked = tt; distinct = tt; count = refl; word = omega arith }

mp_free-resumes_example :
    (mp_free 1004 short ≡ schedule served)
    × IsPool served 0 (1000 ∷ [])
    × IsReady served (put 5 (two_queues 5 ++ 9 ∷ []) two_queues)
    × IsWaiting served 0 []
mp_free-resumes_example =
    mp_free-resumes short two_queues 0 1000 9 5 [] [] short-IsSuspended short-IsReady
      short-IsRunnable short-IsWaiting no_block refl tt (omega arith) refl (omega arith)
