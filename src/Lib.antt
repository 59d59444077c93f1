-- ===== src/Lib.antt =====
-- Neon EDS: an event driven system for microcontrollers, in C. The development models the library's
-- own code, in its default configuration (include/base/config.h) and, where a port matters, on
-- port/x86-64-linux-gcc.
--
-- Parts. Everything rests on the containers of include/base: circular doubly linked lists (dlist.h),
-- lists of nodes with a priority (bias_list.h) and a ring of item pointers (queue.h). The virtual timers
-- (source/timer.c) keep running timers in a linked list of tick differences, which the timer interrupt
-- counts down. The scheduler (source/sched.c) keeps a linked list of ready threads for each priority, and
-- a bitmap that tells which lists hold a thread; the bit functions of the port find its highest bit.
-- An agent (source/epa.c) is a thread with a queue of events and a state machine (source/smp.c); sending
-- it an event adds a reference to the event (source/event.c) and to the thread. An event timer
-- (source/etimer.c) is a virtual timer that sends its own event to an agent. Events and agents live
-- in the blocks of a memory manager, such as a pool (source/pool.c) or a heap (source/heap.c).
--
-- Files:
--   Common      shared names, tests and lists over native numbers, 32-bit arithmetic, bits of numbers,
--               and `Run`: the result of code that can fail an assertion, read or write out of an array,
--               or needs fuel for a loop.
--   Base.Queue  include/base/queue.h: `Nqueue` is the struct, with the buffer as a list of pointers; the
--               operations have the names of the source. Window, Refine: the items a queue holds and what
--               each operation does to them. Clients: the guarded use of the header's example.
--   Base.Dlist  include/base/dlist.h: a node is its address, the fields of all nodes are two maps. Ring is
--               the list through a sentinel; Insert, Remove and Frame say what the operations do to it.
--   Base.BiasList  include/base/bias_list.h, on Base.Dlist.
--   Base.Bitop  include/base/bitop.h: rounding and alignment.
--   Timer       source/timer.c and include/timer/timer.h: a module per operation for its proofs, Delta and
--               View for the list of tick differences.
--   Pool        source/pool.c: allocation and release on the list of free blocks (FreeList, Clients), and
--               the initialisation (Init), with the value of the pointer that it never sets as an argument.
--   Static      source/static.c: Blocks are the blocks that it hands out.
--   Heap        source/heap.c: Layout are the blocks in the region, FreeLinks the list of the free ones,
--               Invariant both together. Search, Split, Taken and Alloc: allocation; Coalesce, Merge,
--               Neighbours, Freed, Joined and Free: release; Settled: no two free neighbours; Init: a new
--               heap. Owned, Disjoint, Clients and Released: what clients hold. Overflow: requests near
--               INT32_MAX; Fuel: the bound of the list.
--   Port        ncore_log2 and ncore_exp2 of port/x86-64-linux-gcc.
--   Sched       source/sched.c: RunQueue is the state of the priority queue, Schedule and RoundRobin the
--               choice of the next thread, Threads the reference counts, Boot the first initialisation.
--   Deferred    source/deferred.c: Boot is the first initialisation, Work one deferral and the run of the
--               pending functions, Order several deferrals and the run after them.
--   Smp         source/smp.c: the dispatcher of flat state machines. Smp.Hsm: that of hierarchical ones;
--               Tree, Walk, Search and Path are about the states that a transition leaves and enters, Chart
--               is the machine that Steps, Climb and Dispatch compare the dispatcher with.
--   Event       source/event.c and include/ep/event.h: reference counts, creation, locking and release of
--               events (Lifetime), and the pools that they come from (Storage, Find).
--   Epa         source/epa.c: one agent, on Base.Queue, Sched and Event. Counts and Agent: the references of
--               its thread and of the events that it keeps. Send and Signal: sending; Thread: registration
--               and dispatch; Defer: deferred events; Drain: the loop of nepa_destroy.
--   Etimer      source/etimer.c: event timers, on Timer and Epa. Due: starting and cancelling.
-- The module Tests of a part runs it on concrete data.
--
-- Fuel. The loops over linked lists and the interrupt's loop take fuel, and each theorem about them says
-- how much is enough: one more than the nodes of the list. The loop of the scheduler is run for a number
-- of rounds, and the dispatcher of a state machine takes one turn more than the bound of the rank that
-- its initial transitions go down. The loops that empty a queue or a list take one turn more than it has
-- items. The list of the free blocks of a heap is shorter than 2 ^ 26, since each block has 32 bytes at
-- least. The paths of a hierarchical machine take as much fuel as their arrays have entries, and the
-- tree of the states has to be lower than that.
--
-- The validation, a parameter of much of the code, stands for CONFIG_API_VALIDATION and CONFIG_DEBUG both
-- set to 1, where the assertions are in the code, or both to 0. With CONFIG_API_VALIDATION alone the code
-- keeps signatures that nothing reads; that setting is not modelled. The timers and the event timers have
-- the assertions in the code. The callback of a timer, the
-- function of a thread, a deferred function, the handlers of a state machine and
-- the memory manager that an event came from are parameters. The reference counts of events are those
-- of port/pic32-none-gcc. Locks are left out: each modelled function is one critical section;
-- what happens while epa_dispatch_i runs the state machine without the lock is part of that parameter.
--
-- Not modelled: the allocation of agents, state machines and queues and their storage, tasks
-- (ntask_init), the wrappers of source/mem.c and source/stdheap.c, the ports to microcontrollers, and
-- the configurations with fewer buckets than priority levels.
pub mod Common
pub mod Base
pub mod Port
pub mod Sched
pub mod Deferred
pub mod Timer
pub mod Pool
pub mod Static
pub mod Heap
pub mod Smp
pub mod Event
pub mod Epa
pub mod Etimer
