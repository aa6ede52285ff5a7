-- ===== src/Lib.antt =====
-- Kernel modules that record the processes of a Linux system, as a verification library.
--
-- The program. Each module is one C file that the kernel loads by itself; none calls another.
-- - process_monitor.c hooks the creation and the exit of processes by kprobes, keeps the last 1000
--   records on a list with statistics, and shows them in /proc/process_monitor; writing "clear"
--   there empties them. It is modelled under Monitor.
-- - experiments/05_complete_monitor.c is the full monitor: the records also hang in a hash table by
--   pid and in a red-black tree by start time, there are a filter and a switch, and four files in
--   a directory of /proc. It is modelled under Complete.
-- - experiments/02_kernel_list.c keeps at most 20 named records with identifiers, which commands
--   written to /proc/kernel_list_demo add, delete and clear. It is modelled under KernelList.
-- - experiments/03_proc_interface.c has a counter of its reads and a message in /proc/proc_demo. It
--   is modelled under ProcInterface.
-- - experiments/04_concurrency_control.c keeps a list of at most 100 numbers, which worker threads
--   and commands change under a spinlock, a mutex or a read-write lock. It is modelled under
--   Concurrency.
-- - experiments/01_syscall_intercept.c counts forks and exits. It is modelled under Intercept.
-- How a write handler of experiments/ takes its command from the user's buffer stands once, in
-- Command, and the modules use it with the size of their array.
--
-- Files. Prelude has the tests, list lemmas, machine words (Prelude/Words) and C strings
-- (Prelude/Text). Kernel has what the sources take from the kernel. In each component State has the
-- structs and globals, with the source's field names; the operations carry the names of the C
-- functions, and a part of a long function has a name of its own:
-- - Monitor/Events: add_process_record, mark_process_exit and the two probes; Monitor/Interface:
--   the show and write functions; Monitor/Module: init and exit. Proofs: Monitor/Marking (exits),
--   Monitor/Invariant (counters), Monitor/Window (which records are kept), Monitor/Lifecycle.
-- - Complete/Matches: process_matches_filter; Complete/Index: find_process_by_pid and the search
--   tree; Complete/Events: adding, exits, probes; Complete/Show and Complete/Control: the read and
--   the write functions; Complete/Module: init and exit. Proofs: Complete/Invariant says when list,
--   hash table, tree and heap agree; Complete/Safety is on the operations on a
--   valid store; Complete/Spec is an abstract machine on a plain list of records, and
--   Complete/Refinement the relation to it; Complete/Stats, History, Filtering, Listing and
--   Lifecycle are on the other functions.
-- - KernelList/Records: the list; KernelList/Interface: the file, init and exit. Proofs:
--   KernelList/Removal, KernelList/Invariant, KernelList/History, KernelList/Eviction.
-- - ProcInterface/Files: the show and write functions; ProcInterface/Module: init and exit. Proofs:
--   ProcInterface/Message, History, Counter and Lifecycle. The message is an array of 256 bytes
--   there, and a copy from the user may fail after some bytes.
-- - Concurrency/Items: the three additions, the reader and clear; Concurrency/Workers: the
--   worker threads, start and stop; Concurrency/Interface: the file, init and exit. Each is one
--   step there. Proofs: Concurrency/Invariant, History, Listing and Starts,
--   which has two overlapping starts as a relation.
--   Concurrency/Threads/Moves has the additions, the reader and clear once more, as a relation
--   with a move for each access to the shared data, and Concurrency/Threads/System the steps of n
--   threads and the states they reach. Proofs: Locks, Discipline and Window (one lock), Progress
--   and Finish (deadlock, termination), Solo, Alone and Calls (against Concurrency/Items), Races,
--   Faults and Readers, with Tally, Held, Local, Guarded and Turns.
-- - Intercept/Probes: the whole file; Intercept/Processors: the handlers on several processors,
--   with a move for each load and store. Proofs: Intercept/Counting, Overlaps and Lifecycle.
-- Tests stand in Tests modules, with runs on small inputs.
--
-- State and errors. A handler is a function from the state to the state, the lines that it prints
-- and its reply. In Complete the records stand in a heap of addresses, because a record hangs in
-- three containers; reading or freeing an address that is not allocated gives `none`, as does an
-- access outside an array. The other modules have one list only, so the list holds the records.
-- Code between spin_lock and spin_unlock is one step, but in Concurrency/Threads;
-- Complete/Lifecycle has an interleaving in which another step runs between such a section and the
-- code behind it, and Concurrency/Starts one in which two starts overlap.
--
-- Numbers. An `int` or `pid_t` is its bit pattern below 2 ^ 32, a `long` or `unsigned long` one
-- below 2 ^ 64; additions and subtractions wrap as written, and signed comparisons flip the sign
-- bit. Loops run over lists, so no fuel is needed. The limits 1000, 100, 50 and 20 are the
-- source's.
--
-- Parameters. The record Kernel holds HZ, TASK_COMM_LEN, hash_min, the two functions of
-- <linux/rbtree.h>, sscanf and simple_strtol; the answers of kmalloc, copy_from_user, jiffies,
-- proc_create, register_kprobe and kthread_run are arguments of the functions that use them. Where
-- the tree matters, the hypothesis IsRbLib says that recolouring keeps the order of the nodes and
-- that erasing removes one node and no other. A text that the kernel copies has the length asked
-- for.
--
-- Threads. In Concurrency/Threads a move is one access to the shared data, but four parts of the
-- source are one move each: taking the oldest item off the list (list_first_entry, list_del and
-- kfree), adding at the tail, the loop of clear and the loop of the reader. Under one lock nothing
-- comes between; under different locks the relation leaves out the races inside these parts, such
-- as two threads that evict the same item, so what is said of all schedules under different locks
-- concerns the locks only. An item is its value, and a thread starts any of the functions at any
-- time, with memory given; a failed kmalloc touches nothing that is shared. The relation has no
-- bound on the run, and n is any number of threads. A function makes at most 11 moves, from its
-- lock on. In Concurrency/Starts two commands run start_worker_threads, with a move for the test,
-- the setting of worker_running, each kthread_run and each store in the array; a failed thread and
-- NULL are the same there.
--
-- Not modelled: writers that interleave inside a handler of 02_kernel_list.c or
-- 03_proc_interface.c, which have no lock; what overlapping handlers of 01_syscall_intercept.c
-- print; in the interleaved model of 04_concurrency_control.c the access_count of an item,
-- next_value, stop, and concurrency_show, which changes nothing; sleeping; the messages
-- of the init functions; the open functions, which only call single_open; the test programs
-- test_program.c and experiments/0*_test.c, which are menus around shell commands; the scripts and
-- build files.
pub mod Prelude
pub mod Kernel
pub mod Command
pub mod Monitor
pub mod KernelList
pub mod ProcInterface
pub mod Concurrency
pub mod Intercept
pub mod Complete
