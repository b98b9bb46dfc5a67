-- ===== src/Lib.antt =====
-- OS/161: the core of the kernel's storage stack, its deadlock detector, interrupt levels, lists of
-- threads, run queues, semaphores, its memory allocator, arrays, times, byte order and the C
-- library's functions on blocks and strings.
--
-- The storage stack, from below: a uio describes a transfer between a kernel buffer and other
-- buffers (os161/kern/lib/uio.c); the disk driver (os161/kern/dev/lamebus/lhd.c) moves whole sectors
-- through one; the block layer of SFS (os161/kern/fs/sfs/sfs_io.c) builds a uio for one block and
-- retries; block allocation (os161/kern/fs/sfs/sfs_balloc.c) stands on the bitmap
-- (os161/kern/lib/bitmap.c) and the block layer; the block map (os161/kern/fs/sfs/sfs_bmap.c) stands on
-- both, file I/O (os161/kern/fs/sfs/sfs_io.c) on the block map, and directories
-- (os161/kern/fs/sfs/sfs_dir.c) on file I/O; the table of inodes in memory
-- (os161/kern/fs/sfs/sfs_inode.c) on allocation and block I/O. The memory allocator
-- (os161/kern/vm/kmalloc.c) takes its pages from os161/kern/arch/mips/vm/ram.c. The deadlock detector (os161/kern/thread/hangman.c), the
-- interrupt levels (os161/kern/thread/spl.c) and the lists of threads (os161/kern/thread/threadlist.c)
-- stand apart. C functions keep their names, less the prefix that the module's name gives.
--
-- Files:
--   Common: the machine words' bits, big-endian words in a block of bytes, list lemmas, errno values,
--     and Common/Run, the commands: a run ends in `done`, `fail` with an errno, `panic` (a panic or a
--     KASSERT that fails; the kernel is one built without the option noasserts), `fault` (an access out
--     of an array or through NULL) or `stuck` (a model's loop ran out of rounds). `Ensures P Q r` says
--     that `r` is a `done` that meets P or a `fail` that meets Q, so that it excludes the other three.
--   Bitmap: bitmap.c. `bitmap_create` is Bitmap.create, and so on. Wf: when a bitmap is valid, and its
--     bits; Alloc, Marks, Create: what the operations do.
--   Uio: uiomove, uiomovezeros, uio_kinit. Move: a transfer through one kernel iovec;
--     Transfer, Rounds: through any number of them.
--   Lhd: lhd_io. Block: a transfer of one sector.
--   Kmalloc: os161/kern/vm/kmalloc.c, one thread at a time. Kmalloc/Ram: ram_stealmem, alloc_kpages. Refs: the
--     pagerefs and their bitmaps; Refs/Bits, Slots, Take, Alloc, Free: what allocating and freeing one does.
--     Page, Carve, Back, Put: one page of blocks; Holds, Change: the pages of a heap; Live: blocks in use;
--     Alloc, Fresh, Gives: small requests; Locate, Freed: kfree; Large: whole pages.
--   Sfs/State: struct sfs_fs, struct sfs_vnode and the inode. Sfs/Block: sfs_rwblock, sfs_readblock,
--     sfs_writeblock. Sfs/Balloc: sfs_clearblock, sfs_balloc, sfs_bfree, sfs_bused. Sfs/Bmap: sfs_bmap;
--     Lookup: without allocation; Extend: with it. Sfs/Trunc: sfs_itrunc; Direct, Length: files of direct blocks.
--     Sfs/Io: sfs_partialio, sfs_blockio, sfs_io, sfs_metaio. Sfs/Dir: sfs_dir.c
--     but for sfs_lookonce; Entry: an entry written and found. Sfs/Inode: sfs_inode.c, with the reference counts of
--     os161/kern/vfs/vnode.c. Layout: the bytes of an inode; Table, Parts: the table of vnodes; Load, Sync,
--     Reclaim, Erase, Make: the operations; Lookonce: sfs_lookonce.
--   Hangman: hangman.c. Graph: paths from actor to actor; Check: the walk; Safety: the three calls.
--   Array: os161/kern/lib/array.c and os161/kern/include/array.h. Contents: the entries in use;
--     Growth: array_add.
--   Thread/Spl: spl.c, for one thread on its cpu. Level: when interrupts are on.
--   Thread/List: threadlist.c, as a store of nodes. Chain, Steps: chains of pointers; Holds: when a
--     store holds a list of threads; Ops: the operations.
--   Thread/Migrate: thread_consider_migration of os161/kern/thread/thread.c, over run queues as lists. Take:
--     the counts, the share and the victims; Fill, Sweep: the two loops; Safety: the whole call.
--   Thread/Semaphore: P and V of os161/kern/thread/synch.c. Steps: threads that use a semaphore,
--     interleaved at its spinlock; Invariant: what holds in every interleaving.
--   Clock: os161/kern/lib/time.c. Endian: os161/kern/lib/bswap.c, big-endian.
--   Libc: os161/common/libc/string, for memcpy, memmove, strlen, strcpy, strcat and strcmp over memory as the
--     byte at each address. Copied, Blocks: copying blocks; Strings: strlen, strcpy,
--     strcat; Order: strcmp.
--   Tests: runs on concrete inputs.
--
-- Bounds and rounds: the walk of hangman_check takes a number of rounds, which a caller of the theorems
-- gives and which must reach the length of the chain of waits. uiomove runs for two rounds per iovec
-- and two more: each round ends the loop, empties an iovec or drops one. uiomovezeros runs for one
-- round per byte and one more, where a round moves at least one byte. array_preallocate doubles
-- its capacity in at most 32 rounds, which reach every size up to 2^31. sfs_rwblock makes ten retries, as
-- the source does. The loops over strings take one round per character and one more.
-- The other loops are counted by the source itself. Arithmetic on `unsigned` and
-- `uint32_t` is cut to 32 bits where it could leave them.
--
-- Taken as given: the result codes of disk operations and of copyin and copyout are lists in the state;
-- what kmalloc returns to bitmap_create and array_preallocate is an argument; so are the
-- address of a new vnode, and whether the array of vnodes has room.
--
-- Not modelled: the locks that serialise the file system and the driver, the register protocol of the
-- disk, messages, freeing of memory by the other parts, other threads in the gaps where kmalloc
-- lets its spinlock go, the vnode operations of SFS, printf and the rest of the C library, and the rest of the kernel.
pub mod Common
pub mod Bitmap
pub mod Hangman
pub mod Uio
pub mod Kmalloc
pub mod Libc
pub mod Lhd
pub mod Sfs
pub mod Tests
pub mod Array
pub mod Clock
pub mod Endian
pub mod Thread
