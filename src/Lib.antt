-- ===== src/Lib.antt =====
-- The kernel of RT-Thread Nano for RISC-V 32: the scheduler, the timers, the threads and the services
-- that they stand on, modelled from the C sources and proved correct.
--
-- The model
--   Service     include/rtservice.h. An `rt_list_t` is embedded in the structures that it links, and a
--               list is a ring of such nodes behind a head. `Service/Links` has the operations on the
--               `next` and `prev` fields of every node, one assignment of the source at a time.
--               `Service/Slist` has the singly linked lists.
--               `Service/Pointers`, `Service/Seg` and `Service/Ring` read the pointers as lists.
--   Kservice    src/kservice.c. `Kservice/Ffs` is `__rt_ffs`, with its table.
--               `Kservice/Memory` and `Kservice/Strings` have the memory and string routines on a memory
--               of bytes, `Kservice/Print` has `print_number`, and `Kservice/Format` `rt_vsnprintf`.
--               The words that `va_arg` reads and the address of the string "(NULL)" are arguments. The
--               pointer that `rt_vsnprintf` writes through wraps round at the end of the address space.
--   Kernel      The state: the fields of include/rtdef.h and the static variables of the kernel's files,
--               and the commands that functions are made of. A command gives `none` where RT_ASSERT
--               fails, which halts the system, and where the C code would read through a pointer that
--               is no object of its type. RT_ASSERT tests of an object's type are the model's types.
--   Scheduler   src/scheduler.c. `Scheduler/Queues` says what a well-formed ready table is.
--               `rt_hw_context_switch` and its kin are assembly; the model records the switch asked for,
--               and goes on with what the function does when its caller runs again.
--   Timer       src/timer.c with one list level (RT_TIMER_SKIP_LIST_LEVEL is 1).
--   Thread      src/thread.c: the functions that move a thread between its states.
--   Clock       src/clock.c and src/irq.c, and `rt_timer_check` of src/timer.c, whose callbacks are a
--               parameter.
--   Ipc         src/ipc.c: wait lists and semaphores, and in `Ipc/Mutex`, `Ipc/Event`, `Ipc/Mailbox`
--               and `Ipc/Messages` the mutexes, event sets, mailboxes and message queues. A call that
--               waits ends where it calls `rt_schedule`; `take_wake`, `mutex_wake` and their like are
--               the rest, when the thread runs again. Each wait list has a number of its own; a
--               mailbox has a second one, for its senders.
--   Mempool     src/mempool.c: pools of blocks of one size. The word in front of each block, which links
--               the free blocks and names the pool of one in use, is kept by its address.
--   Objects     src/object.c: the container of each type of object, a list of the objects of the type. The
--               other modules leave out their calls of it and number the objects themselves.
--   Mem         src/mem.c. The headers of the heap's blocks are kept by their offsets, apart from the
--               bytes of the blocks. `Mem/Chain` says what a well-formed heap is: the blocks cover it,
--               no two free ones are neighbours, and `lfree` is the first free one. `Mem/Calls` has the
--               calls; one that has to wait for `heap_sem` ends there, as `blocked`.
--   Tests       Concrete states and runs, and each property at such a state.
--
-- Numbers are the native ones; a C integer of w bits is kept below 2 ^ w by the `%` of the source's
-- wrap-around, and a subtraction adds 2 ^ w first. The configuration is that of bsp/rtconfig.h, but with
-- the mutexes, event sets, mailboxes, message queues and memory pools that it leaves out.
-- Critical sections keep the interrupt level in the field `irq`; the model runs them as a whole.
--
-- The walks of `rt_timer_start`, `rt_ipc_list_suspend`, `rt_event_send`, `rt_object_init` and
-- `rt_object_find` and the loops over `rt_list_t` and `rt_slist_t` run on fuel; more fuel than there are
-- nodes on the list is enough, as their theorems say. So do the loops of `rt_timer_check`,
-- `rt_ipc_list_resume_all`, `rt_mq_control` and `rt_mp_detach`, one unit for a turn; of the first one, a
-- periodic timer with no delay would take every amount. The walk of `rt_malloc` over the heap takes a unit
-- for a block, the loops of the strings and of `rt_vsnprintf` a unit for a character, and the word loops of
-- `rt_memset` and `rt_memcpy` run on the number of bytes.
--
-- Not modelled: the creation and deletion of objects on the heap, src/memheap.c and src/slab.c, the idle
-- thread, the device registers, the console, the shell, the context switch in assembly and the CoreMark
-- sources.
pub mod Prelude
pub mod Service
pub mod Kservice
pub mod Kernel
pub mod Scheduler
pub mod Timer
pub mod Thread
pub mod Clock
pub mod Ipc
pub mod Mem
mod Tests
pub mod Mempool
pub mod Objects
