-- ===== src/Service/Node.antt =====
-- The list nodes of the kernel, include/rtdef.h: the addresses that an `rt_list_t *` can hold.
use rtthread_nano_to_riscv.Prelude.{ℕ, ℕ_discrete}

-- `struct rt_timer` objects: the one built into each thread, and those that a program makes.
pub data TimerId : Type 0 where
  thread_timer : ℕ → TimerId
  user_timer : ℕ → TimerId

-- A head is named for the list that it stands in front of, an embedded node for the structure that
-- holds it; two nodes are one exactly if they are spelled alike.
pub data Node : Type 0 where
  -- `rt_thread_priority_table[p]`, `rt_thread_defunct` and `rt_timer_list[0]`
  ready : ℕ → Node
  defunct : Node
  timers : Node
  -- The wait list `i`: `suspend_thread` of the IPC object or memory pool of this number, or a list
  -- `suspend_sender_thread` with this number.
  suspended : ℕ → Node
  -- `tlist` of the thread `t`, and `row[0]` of a timer
  tlist : ℕ → Node
  row : TimerId → Node
  -- `rt_object_container[c].object_list`, and `list` of the object at an address
  container : ℕ → Node
  object : ℕ → Node

unfoldable pub node_eq : Discrete Node
node_eq = hlevel ℕ_discrete

unfoldable pub timer_eq : Discrete TimerId
timer_eq = hlevel ℕ_discrete
