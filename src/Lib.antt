-- ===== src/Lib.antt =====
-- A model of the core of OS/161, the teaching kernel in os161/kern, and what is proved of it.
--
-- The parts, and how they fit together:
--   * Base: what the modules share. Base.Outcome is the answer of a kernel function: a result, an error
--     code of kern/errno.h, or a panic, which is also what a failed assertion and an access outside a
--     block are. Base.Blocks is the memory that the pointer tables live in, with `memmove`.
--   * Bitmap: os161/kern/lib/bitmap.c, bits kept in bytes, read as a set of numbers.
--   * Array and Queue: os161/kern/lib/array.c and queue.c, the growing table and the growing ring
--     of pointers, each read as a list.
--   * Thread: os161/kern/thread/thread.c and scheduler.c. The run queue is a Queue, the sleepers and
--     the zombies are Arrays; the operations are the calls that the code makes, in its order.
--   * Synch: os161/kern/thread/synch.c, semaphores, locks and condition variables over Thread.
--   * Copyinout: os161/kern/lib/copyinout.c, copies between user memory and the kernel.
--   * Sfs: os161/kern/fs/sfs/sfs_vnode.c, the allocation of disk blocks over Bitmap, and the map from
--     the blocks of a file to those of the disk; Sfs.Truncate is sfs_truncate, and Sfs.Io
--     is sfs_partialio, sfs_blockio and sfs_io with os161/kern/userprog/uio.c. Sfs.Dir is
--     the operations on the slots of a directory. The device answers each access of a
--     block, with EINVAL past its end, which panics, or with another error.
--   * Kheap: os161/kern/lib/kheap.c, kmalloc and kfree, over the pages that Vm gives out. Kheap.Free is
--     kfree. The invariant of the heap keeps for each page the free and the live blocks.
--   * Vfs: os161/kern/fs/vfs. Vfs.Vnode is vnode.c, the counts of a vnode; Vfs.Devices and Vfs.Mount are
--     vfslist.c, the table of devices; Vfs.Lookup and Vfs.Current are vfslookup.c and vfscwd.c, and
--     Vfs.Path is vfspath.c. A file system is a record of its operations, with what vnode.h and fs.h ask
--     of them as a record of laws, which allow for a reclaim that fails and for an operation that panics. Vfs.Owns and Vfs.After are the accounts of references.
--   * Vm: os161/kern/arch/mips/mips/ram.c and dumbvm.c, physical memory, address spaces and faults.
--
-- An operation that changes a structure takes it and returns the new one; a pointer is a value of a
-- type A or a number. What `kmalloc` answers is an argument of the operation, and a new block holds
-- arbitrary values. Numbers are natural numbers; 32-bit arithmetic is written with `% 2 ^ 32`, and
-- where an int overflows, which C leaves undefined, the model panics.
--
-- Loops run on fuel: a byte or a slot of the structure a round, or 32 rounds for a loop that doubles
-- an int. The theorems show that the models do not run out of it, since
-- that would be a panic; of `sfs_io` past one block nothing is proved. `q_grow` and
-- `q_addtail` call each other to a depth of two.
--
-- Atomicity: the kernel runs on one processor and turns interrupts off, so an operation is one step
-- up to a switch. `P` and `lock_acquire` are modelled by the round of their loop, and runs are
-- sequences of such steps with anything that other threads do between them.
--
-- The wait of the scheduler for interrupts is a list of what each does to the threads; where the list
-- ends with no thread ready, the model panics, so a theorem says which lists are enough.
--
-- Not modelled: a uio in user space, the vnode operations of SFS, `vfs_getcwd`, the files of devices
-- (os161/kern/fs/vfs/device.c), the locks of the VFS layer, `copyoutstr`, drivers, traps and context
-- switches in assembly, user programs and their library.
pub mod Base
pub mod Array
pub mod Bitmap
pub mod Queue
pub mod Kheap
pub mod Sfs
pub mod Synch
pub mod Thread
pub mod Vfs
pub mod Vm
pub mod Copyinout
