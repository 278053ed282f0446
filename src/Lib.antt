-- ===== src/Lib.antt =====
-- Verification of the inter-process communication, the scheduler and the stores of the Spoon
-- microkernel (kernel/src; the tree spoon/kernel holds the same files).
--
-- A process has 1024 ports. A port that a thread has opened holds two paged queues, one of pulses
-- (six words) and one of messages (bytes). Sending to a port wakes its thread, which is found in the
-- process's hash table and put into the run queue of a processor.
--
-- Aqueue models ds/aqueue.c: `aqueue_x` is `x`; the linked list of pages is a list of pages, and
-- `put` and `pull` are what callers do between `aqueue_lock` and `aqueue_unlock`. Its children relate
-- the queue to a list. Htable models ds/htable.c. Kernel has the structs that the other files
-- share. Sched models scheduler.c, Threads threads.c, Ports and Release ports.c, Messages messages.c
-- and Pulses pulse.c, each function under its own name; the structs are in include/. Rwlock models
-- rwlock.c as steps of threads. Scene is a small kernel, on which the theorems are tried in the
-- modules called Tests.
--
-- Of the scheduler, Timers has the pause queue, where threads wait for a time, and Sched/Fast the
-- fast queue; there `fast_queue` and `fast_dequeue` are `queue_fast` and `dequeue_fast`, since a field
-- has the name. Gc models the queue of gc.c, and Ring is the ring that it and the fast queue are.
-- Events models events.c, the handlers that a process sets for the events of another. Physmem models
-- physmem.c, the bitmap of physical pages. Env models env.c, the environment
-- variables of a process, and Strings the routines of misc.c that it compares and copies names with.
-- Dmesg has the writing of numbers and strings of dmesg.c, and Dmesg/Format its `sdmesg` and the
-- kernel's log.
--
-- Links and Family model ds/list.h and ds/family.h, the lists and the trees whose links stand inside
-- the objects. Processes models process.c on them and on Htable: the list, the tree and the table of
-- all processes, the numbers that they get, and their locks. Threads/Tree has the list and the tree
-- of the threads of a process, which `new_thread` and `delete_thread` of threads.c keep. Shmem models
-- shmem.c, the regions of shared memory and, in Shmem/Share, who may use them; mapping their pages is
-- left to the page tables, whose answer is an argument.
--
-- Pointers are natural numbers, and the threads, processes and schedulers stand in heaps, functions
-- from such numbers. A C `int` that may be negative is an integer; the unsigned counters of the queues
-- wrap at 2 ^ 32. What `malloc` returns is an argument of the operation that calls it. An operation
-- that may halt the kernel (a failed assertion, a NULL pointer followed, a spinlock that is held)
-- returns an option, with `none` for the halt. The positions of Htable are remainders of `int` sums
-- that wrap: a search whose position is negative halts, and so does, in the model, `htable_remove`,
-- which reads what stands before the table. The theorems that look into a table bound its keys.
--
-- The loops over the ports of a thread recur on the list of ports, those over the pages and the
-- tables on their number. The loops of `release_port` and `release_thread_ports` that drop what waits
-- run on fuel; one round for each object that waits, and one for each port of the thread, is enough,
-- with one more to see the end. The search of `memory_multiple_alloc` has a round of fuel for each
-- page of the map, and the loop of `parse_multibootMap` too; each round moves on by a page or more.
-- `htable_insert` and `htable_rehash` call each other; a table that was doubled, and may be filled by
-- half, does not grow while it is filled again, so that a fuel of two is enough; `htable_remove` needs
-- one. `family_adopt` has a round of fuel for each child, a walk of the list of processes one for each
-- process, `next_pid` one more than there are processes, and the search for the id of a region one more
-- than there are regions. The digits of a 32-bit number are at most ten, and eight in base 16.
--
-- Not modelled: interrupts and the context switch, page tables and stacks, the heap of the kernel, the
-- system calls, what `new_process`, `new_thread` and their counterparts allocate and free, the screen,
-- what stands outside kernel/src (drivers, servers, libraries and applications), and what other
-- processors do while a spinlock is held: but for the read-write lock, each operation runs alone, and
-- in Processes and Shmem a lock that is not free halts it.
pub mod Prelude
pub mod Aqueue
pub mod Dmesg
pub mod Env
pub mod Events
pub mod Family
pub mod Gc
pub mod Htable
pub mod Links
pub mod Kernel
pub mod Sched
pub mod Strings
pub mod Threads
pub mod Timers
pub mod Physmem
pub mod Processes
pub mod Ports
pub mod Messages
pub mod Pulses
pub mod Release
pub mod Ring
pub mod Rwlock
pub mod Scene
pub mod Shmem
