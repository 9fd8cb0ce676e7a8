-- ===== src/Lib.antt =====
-- The thread-safe memory manager and the linked list that lives in its pool.
--
-- memory_manager.c keeps one pool of bytes and a linked list of descriptors (MemoryBlock) of the
-- regions that are allocated in it. Each public function takes one mutex around its body.
-- linked_list.c keeps a singly linked list whose nodes are blocks of that pool; its functions take a
-- read-write lock, and call mem_alloc and mem_free while they hold it (list_insert: before).
-- cM2.c stands before the C library's allocator: it prints each call and passes it on. common_defs.h
-- has the barrier that the test programs let their threads meet at.
--
-- The files, and the code that they model:
-- - Word: void * and size_t arithmetic of a 64-bit target, wrapping at 2 ^ 64.
-- - Sums: what a number of threads has in common.
-- - Run, Run.Returns: results of C code (a value, undefined behaviour, self-deadlock, the end
--   of the program by exit, fuel used up) and total correctness of a call. Run.Ends: calls
--   that return, fault or end the program.
-- - Machine: the globals memory, memory_head, memory_size and lock of memory_manager.c,
--   struct MemoryBlock of memory_manager.h, the live descriptors on the C heap, and what
--   malloc, free, memcpy and the pthread mutex calls do to them. Machine.Points: the laws of
--   these calls.
-- - Manager: mem_init, mem_alloc_no_lock, mem_alloc, mem_free_no_lock, mem_free, mem_resize
--   and mem_deinit, under their names; a loop or a branch of one that stands alone in a
--   definition has a comment that says which.
-- - Manager.Chain, Manager.Valid: the linked list as a list of cells, and well-formed states.
-- - Manager.FirstFit, Manager.Insert, Manager.Alloc: allocation. Manager.Find,
--   Manager.Unlink, Manager.Free: release. Manager.Reconnect, Manager.Relocate,
--   Manager.Relocation, Manager.Resize: resize. Manager.Locked: the functions that take the
--   lock. Manager.Lifetime: mem_init and mem_deinit.
-- - Manager.Owners, Manager.Placement, Manager.Rounds, Manager.Moves, Manager.Starts: the
--   allocator as its callers see it. Manager.Defects: two misuses. Manager.Tests: runs and
--   instances.
-- - Threads: threads that call mem_alloc, mem_free and mem_resize at once. A step of a thread
--   is to get the mutex, or all that the code does while it has it; a thread touches no
--   global without the mutex, so that finer steps of two threads commute. Threads.Sequential:
--   a call as a whole. Threads.InOrder: the calls one after the other. Threads.Safety: what
--   the threads can rely on. Threads.Tests: instances.
-- - NodeStore: struct Node of linked_list.h, list_lock, *head, and the accesses of
--   linked_list.c to a node. LinkedList: every function of linked_list.c, under its name.
-- - LinkedList.Nodes, LinkedList.Link: chains of nodes. LinkedList.Valid: well-formed lists,
--   whose nodes all have a block of the manager. LinkedList.Read, LinkedList.Range: search,
--   count and display. LinkedList.Grow, LinkedList.Place, LinkedList.Insert,
--   LinkedList.InsertAfter, LinkedList.AfterLocked, LinkedList.BeforeLoop,
--   LinkedList.BeforeLocked, LinkedList.InsertBefore: insertion. LinkedList.Free,
--   LinkedList.Erase, LinkedList.Delete: deletion. LinkedList.Lifetime: list_init and
--   list_cleanup. LinkedList.Tests: instances.
-- - LinkedList.Race: threads that call list_delete at once. A step of a thread is the test of
--   *head, to get the lock, or all that the code does while it has it.
--   LinkedList.Race.Locked: a call that has the lock. LinkedList.Race.Standing: what holds in
--   every state. LinkedList.Race.Safety: what the threads get. LinkedList.Race.Tests:
--   instances.
-- - LinkedList.Threads: threads that call list_insert, list_insert_after,
--   list_insert_before, list_delete, list_search, list_count_nodes and list_display at once,
--   with any pointers. A writer takes a step for what it does before the lock, one for the
--   lock, and one for all that it does under it; a reader, which shares the lock, takes a step
--   for each round of its loop. LinkedList.Threads.Locks: the lock counts its holders.
--   LinkedList.Threads.Rounds: a round of a reader.
--   LinkedList.Threads.Standing: what holds in every state. LinkedList.Threads.Returning:
--   how the locked part of a writer ends. LinkedList.Threads.Writers, LinkedList.Threads.Steps:
--   every step keeps it. LinkedList.Threads.Safety: what the threads get.
--   LinkedList.Threads.Tests: instances.
-- - Client: programs that call the malloc family, and the interface that serves them.
--   Platform: what surrounds cM2.c (the allocator behind, dlsym, the texts of sprintf), its
--   statics and what it prints. Platform.Fits: which texts fit their buffers.
-- - Tracer: the functions of cM2.c, under their names; those that may initialize (malloc_with
--   and so on) over the initialization, init over the depth of nested calls. Tracer.Flags,
--   Tracer.Steady: calls end. Tracer.Temp, Tracer.TempCopy: the memory of tmpbuff.
--   Tracer.Start: the first call. Tracer.Transparent: calls after that. Tracer.Tests:
--   instances.
-- - Barrier: my_barrier_t and its functions of common_defs.h, my_barrier_wait as the steps of
--   a thread. Barrier.Counting, Barrier.Invariant: what holds in every reachable state.
--   Barrier.Safety: what the barrier promises. Barrier.Progress: the steps of a round.
--   Barrier.Tests: instances.
--
-- The nodes stand in a map from addresses, beside the bytes that memcpy moves: no function resizes
-- the block of a node. sizeof (Node) is the parameter node_size. A node from mem_alloc has
-- indeterminate contents, and an access to an address at which no node lives is a fault. The data
-- are any numbers, of which the 16-bit ones of the code are a part, since no function computes with
-- them. The mutex in each node is left out: nothing locks it. In LinkedList and
-- Manager both locks are as one thread sees them; Threads, LinkedList.Race and LinkedList.Threads
-- have each lock as many threads see it.
--
-- What malloc returns is an argument of the functions that call it (Fresh for a descriptor: an
-- address, NULL included, and indeterminate contents; an address for the pool). What is assumed of
-- it is that the address is not that of a live descriptor, and that the pool ends below 2 ^ 64.
--
-- A loop over the descriptors runs on memory_size + 1 rounds of fuel. The regions of a well-formed
-- list are not empty and lie side by side in the pool, so there are at most memory_size of them, and
-- the fuel is enough. A loop over the nodes runs on as many rounds, since distinct nodes have
-- distinct blocks.
--
-- dlsym may call the functions that cM2.c replaces while cM2.c initializes, and mmap may then start
-- the initialization once more. Its depth is fuel: 2, since each of the two flags `initializing` lets
-- one call through.
--
-- fprintf appends its line and is assumed to allocate nothing, as where its stream has its buffer
-- already. Where stdio calls the replaced malloc for that buffer, the replaced functions call each
-- other once more, and too_much, which prints before it exits, calls itself without end.
--
-- The texts of numbers and addresses are parameters. Where they are to be short, an address has at most
-- 14 characters, as those of user space have; MAP_FAILED, which mmap returns where it fails, has 18.
--
-- Undefined behaviour is the result `fault`: a NULL or dangling pointer, memcpy between overlapping
-- regions, a pool that is freed twice, a mutex that is not there, a text that overflows its buffer.
--
-- Not modelled: the test programs, the macros of common_defs.h that print in colour, the Makefile
-- and gitdata.h; threads that are in list_init, list_cleanup or list_display_range at a part of
-- the list, while others are at the list; what stdio allocates. The threads of a barrier are as many
-- as it was made for, and no other thread uses it; its counts are numbers that are at least 0.
pub mod Barrier
pub mod Client
pub mod LinkedList
pub mod Machine
pub mod Manager
pub mod NodeStore
pub mod Platform
pub mod Prelude
pub mod Run
pub mod Sums
pub mod Threads
pub mod Tracer
pub mod Word
