-- ===== src/Lib.antt =====
-- A model of the OS/161 kernel of CSC369 in its last state, a3/src, and of its C library.
--
-- The parts and their files:
--   Base       What all share: native numbers and their Boolean tests, lists, and how a call ends:
--              `Run` is a return or a stop of the machine (`assert`, `panic`, a fault), `Result` is
--              a value or an error code of a3/src/kern/include/kern/errno.h.
--   Pid        a3/src/kern/thread/pid.c, the process table. Each function has the name of the
--              source; the code of one lookup is a helper by clauses on the entry (`join_entry` is
--              `pid_join` after `pi_get`). Valid is the invariant of the table; Alloc, Exit,
--              Waiting and Boot hold what each function does; System puts the functions together
--              into schedules of threads, with `cv_wait` and `cv_signal` of a3/src/kern/thread/
--              synch.c as the states of the threads.
--   Queue      a3/src/kern/lib/queue.c, a ring of pointers that doubles. Window relates it to a list,
--              Grow is the copy into the larger array, Refine the operations.
--   Array      a3/src/kern/lib/array.c, an array that grows: Cells is about its loops, Refine about its
--              size, Change about adding and removing.
--   Scheduler  a3/src/kern/thread/scheduler.c over Queue, and `mi_switch` of
--              a3/src/kern/thread/thread.c for a thread that stays ready.
--   Synch      a3/src/kern/thread/synch.c: Exclusion has threads that share a lock, Counting threads
--              that share a semaphore.
--   Bitmap     a3/src/kern/lib/bitmap.c: Byte is about one byte, Laws about marking, Alloc and Create
--              about `bitmap_alloc` and `bitmap_create`.
--   Swap       a3/src/kern/vm/swap.c over Bitmap: Count counts clear bits, Pages is the invariant and
--              `swap_alloc`, Reserve the other operations, Boot the start.
--   File       a3/src/kern/userprog/file.c and the calls on descriptors of a3/src/kern/userprog/
--              file_syscalls.c. `sys_transfer` is what sys_read, sys_write and sys_getdirentry do
--              around the call of the vnode. Exclusive is the invariant of a table without shared
--              open files; Opening, Closing, Moving, Seeking and Sharing hold what each call does,
--              RoundTrip an opening and the closing after it, Session calls in any order.
--   Sfs        a3/src/kern/fs/sfs/sfs_vnode.c: a block is a list of words, and the code of `sfs_bmap`
--              is cut at its allocations. Space is about free blocks, over Bitmap; Map is the map of a
--              file and its invariant; Bmap, Index and Lookup hold `sfs_bmap`.
--              Truncate is `sfs_dotruncate`: Discard is its loops, Shrink a file that loses blocks, and
--              Phases, Index and Whole what is left.
--   Directory  the same file: a directory as the list of its slots, where the reads and writes of slots
--              end as arguments say. Names is the view of a directory as a map from names to inodes;
--              Scan and Finding are about `sfs_dir_findname`, Counts, Linking and Unlinking about
--              entries, and Failing about why one is not made. Calls has `sfs_lookonce`,
--              `sfs_creat`, `sfs_link`, `sfs_remove` and `sfs_rename`, and its children what they do to
--              names and link counts: Links is the invariant, Entering, Creating, Removing and Renaming
--              hold the calls, and Alone a renaming of a file that is not in use. Subdirs has `sfs_mkdir` and `sfs_rmdir`, with
--              Entries, Making, Long and Taking for what they do. `vnode_decref` of
--              a3/src/kern/fs/vfs/vnode.c is called where the vnode's lock is held: it panics on the
--              last reference, since `sfs_reclaim` takes that lock.
--   Libc       a3/src/lib/libc: strlen.c, strcpy.c and strcat.c in Str, strcmp.c and memcmp.c in
--              Compare, strchr.c and strrchr.c in Search. A `char` is signed.
-- The table and the run queue meet in the kernel's threads: a thread that waits in `pid_join` is out
-- of the run queue until it is signalled.
--
-- Open files and vnodes meet only in what the vnode operations answer, which are arguments in File.
--
-- Bounds and fuel: `kmalloc`, `cv_create` and `lock_create` are flags, and a property says what it
-- asks of them, if anything. `find_free` runs on the bound that `pid_alloc` asserts, and stops the
-- machine if it is used up. `grown_size` of `q_grow` has 31 rounds, because an `int` that is positive
-- doubles at most 30 times before it overflows; an overflow stops the machine as the assertion after
-- it does. `grown_max` of `array_preallocate` has 31 rounds for the same reason; an overflow there is
-- undefined in C, and stops the model. The copy of `q_grow` and the loop of `scheduler_killall` run
-- on the size of the array, which holds fewer elements than that. `q_grow` and `q_addtail` call each
-- other: the calls are counted, and a third nested one stops the machine. The loops of the bitmap,
-- of the array and of the strings are over the data.
--
-- The descriptors are 16 (FOPEN_MAX), and a file has 15 direct blocks and 128 indirect ones.
--
-- Not modelled: condition variables as such (see Pid), and the locks around the other parts (each
-- function under `pi_lock`, `swaplock` or the lock of a file is one step); thread creation and stacks;
-- the VFS and the calls that hand it a path; of SFS what Sfs and Directory leave of sfs_vnode.c (the
-- reads and writes of bytes, the vnodes in memory), sfs_fs.c and sfs_io.c;
-- the rest of virtual memory, devices, MIPS code, printing and the user programs; a2 and ex2, which
-- hold earlier states of the same kernel; a1 and ex3.
pub mod Base
pub mod Pid
pub mod Queue
pub mod Scheduler
pub mod Synch
pub mod File
pub mod Libc
pub mod Array
pub mod Bitmap
pub mod Swap
pub mod Sfs
pub mod Directory
