-- ===== src/Lib.antt =====
-- PintOS: the kernel's lists, threads, scheduler, locks, timer, queues, bitmaps, hash tables and
-- file system.
--
-- The kernel keeps its threads in lists (pintos/src/lib/kernel/list.c), switches between them
-- (pintos/src/threads/thread.c), and puts them to sleep on semaphores, locks and condition variables
-- (pintos/src/threads/synch.c), with priorities that are donated through locks or worked out from
-- the CPU time used, in fixed point (pintos/src/lib/fixed_floating_point.c). The timer interrupt
-- (pintos/src/devices/timer.c) wakes sleeping threads. Interrupt handlers pass bytes to threads
-- through a circular queue (pintos/src/devices/intq.c), and pages, swap slots and disk sectors are
-- allocated in bitmaps (pintos/src/lib/kernel/bitmap.c). The page tables of user programs are hash
-- tables (pintos/src/lib/kernel/hash.c). The file system (pintos/src/filesys) keeps files in sectors
-- of a block device (pintos/src/devices/block.c): a free map says which are in use, an inode where the
-- bytes of a file are, a directory which inode has which name.
--
-- The files, each over the code that it names:
--   Common, Common/*     Boolean tests, results, lists and integers that the others share.
--   KernelList           lib/kernel/list.c. A list is the sequence of its elements, front first;
--                        list_sort keeps the structure of the merge sort: find_end_of_run,
--                        inplace_merge, one pass (sort_pass), passes until one run is left.
--                        KernelList/Fallible has the same sort (`sort`) with a comparison that can
--                        fail an assertion of its own, for the waiters of a condition.
--   Kernel               the state that thread.c, synch.c and timer.c share: threads, semaphores and
--                        locks by address, the ready list, the current thread.
--   Threads              threads/thread.c: thread_unblock, next_thread_to_run, schedule,
--                        thread_schedule_tail, thread_block, thread_yield, the end of thread_exit
--                        (thread_die), priorities.
--   Synch                threads/synch.c. sema_down is one round of its loop, so that a thread that
--                        sleeps is a state like any other; lock_acquire and cond_wait are split
--                        where they call it. Synch/System has the
--                        steps of all threads together: semaphores that are in no lock, locks,
--                        yields, priorities and interrupts; condition variables and the timer are
--                        not among its steps.
--   FixedPoint           lib/fixed_floating_point.c. A result that `int` does not hold keeps its low 32
--                        bits.
--   Mlfqs                the feedback-queue scheduler of threads/thread.c.
--   Timer                devices/timer.c: timer_sleep up to its wait, and the timer interrupt, which
--                        calls Threads and Mlfqs and wakes sleepers with sema_up of Synch.
--   Intq                 devices/intq.c: the byte queue of the keyboard and the serial port, whose two
--                        waiters are threads of Kernel. intq_getc and intq_putc are one round of
--                        their loops.
--   Bitmap               lib/kernel/bitmap.c, on 32-bit elements, with its loops over ranges.
--   Palloc               threads/palloc.c: pages of the kernel's and the users' pool, over Bitmap.
--   Hash                 lib/kernel/hash.c. A bucket is the sequence of its elements, an element is its
--                        address; the client's hash and comparison are fields of the table, and what
--                        malloc() returns is an argument. Hash/Sound has the tables in order.
--   Block                devices/block.c: block_read and block_write; a sector is a function from
--                        offsets to bytes, which the driver keeps.
--   Inode                filesys/inode.c: inode_read_at and inode_write_at, with their loops over
--                        sectors, over Block.
--   FreeMap              filesys/free-map.c: sectors allocated and released in a Bitmap.
--   OpenInodes           filesys/inode.c: the open inodes by address; inode_create, inode_open,
--                        inode_close, inode_remove, inode_deny_write, inode_allow_write, over Inode
--                        and FreeMap.
--   File                 filesys/file.c: open files, over OpenInodes.
--   Directory            filesys/directory.c: lookup, dir_add and dir_readdir, over the bytes of the
--                        directory's inode, with strcmp() and strlcpy() of lib/string.c.
--   Filesys              filesys/filesys.c: filesys_create, filesys_open and filesys_remove, and the
--                        operations of filesys/directory.c that open and close inodes, over Directory,
--                        File and OpenInodes.
--   Tests                a small machine and runs on it.
--
-- A stretch of code that runs with interrupts off is one function from state to state, which returns
-- a Result: a failed ASSERT, a PANIC or a followed null pointer is `panic`.
--
-- Fuel: list_sort gives each pass and the passes the length of the list; every round of a pass takes
-- an element and every pass but the last merges two runs. The donation loop of lock_acquire takes its
-- fuel as an argument; each round raises the recorded priority of a lock, so that the number of
-- locks times the highest priority is enough. The loops of inode_read_at and inode_write_at get the
-- number of bytes, as each round takes a byte at least; those over the entries of a directory one
-- round more than there are entries; the loop of rehash() that turns bits off gets the number that it
-- starts from, and hash_next() the number of buckets.
--
-- Not modelled: the interrupt level and the magic number of a thread, which the assertions on them
-- check; the page tables that a switch activates; the list of all threads but as an argument of the
-- scheduler's arithmetic; thread creation; the part of thread_exit that takes a process apart; the
-- tick statistics; the wrap-around of 64-bit tick counts; priorities below zero but in the clamp of
-- the scheduler; the loop of cond_broadcast, whose rounds are cond_signal.
-- Of the file system: sizes and offsets below zero; what bitmap_write() puts into the free map's own
-- file, whose outcome is an argument of free_map_allocate and which free_map_release, where the code
-- ignores its outcome, does without; the counters of accesses and the table of devices of block.c;
-- start-up and formatting, and fsutil.c. Of the hash table: hash_destroy, hash_cur and the sample
-- hash functions. User programs, virtual memory and the drivers are left out.
pub mod Common
pub mod KernelList
pub mod Kernel
pub mod Threads
pub mod Synch
pub mod FixedPoint
pub mod Mlfqs
pub mod Intq
pub mod Bitmap
pub mod Timer
pub mod Palloc
pub mod Block
pub mod Inode
pub mod FreeMap
pub mod OpenInodes
pub mod Hash
pub mod Filesys
pub mod File
pub mod Directory
pub mod Tests
