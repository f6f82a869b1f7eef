-- ===== src/Lib.antt =====
-- Verification of the XBook kernel: the parts of it that compute, translated from C.
--
-- The kernel is a monolithic one for x86. A process has an address space (src/mm/vmspace.c), a
-- list of ranges that mmap, munmap and brk change; it receives signals (src/kernel/signal.c), which
-- sender and receiver keep in sets (src/share/signal.c) and which wake it through
-- src/kernel/task.c, src/kernel/sleep_wakeup.c and src/drivers/timer.c; src/kernel/schedule.c picks
-- the task that runs, which a mutex (src/kernel/mutex.c) may block; alarms
-- (src/kernel/alarm.c) send one of them. Drivers pass bytes through ring buffers
-- (src/kernel/ioqueue.c). The file system Bofs (src/fs/bofs) keeps the sectors of a file in the
-- inode and in blocks of pointers. The allocators stand on bitmaps (src/kernel/bitmap.c), which stand on
-- the memory functions of src/share/string.c; kmalloc (src/mm/memcache.c) gives out objects of
-- pages that a bitmap each keeps.
--
-- Files and what they model:
--   Prelude, Bits         shared helpers: Boolean tests on numbers, lists, bits of numbers
--   Memory                byte-addressed memory, for pointers into byte arrays
--   Strings               src/share/string.c: memset, memcpy, memmove
--   Bitmap                src/kernel/bitmap.c: BitmapInit (init), BitmapScanTest (scan_test),
--                         BitmapSet (set), BitmapChange (change), BitmapTestAndChange
--                         (test_and_change), BitmapScan (scan)
--   VmSpace               src/mm/vmspace.c: the list of ranges and its searches, InsertVMSpace,
--                         RemoveVMSpace, MergeVMSpace, GetUnmappedVMSpace
--   VmSpace/Calls         src/mm/vmspace.c: DoMmap, DoMunmap, DoBrk, SysBrk, MemoryManagerRelease
--   VmArea                src/mm/vmarea.c: AllocVaddress, FreeVaddress, __vmalloc (create_area),
--                         vmalloc, __vfree (release_area), vfree, memmap
--   MemCache              src/mm/memcache.c: MemCacheInit, GroupAllocObjcet (group_alloc_object),
--                         __GroupFreeObject (group_free_object), kmalloc, kfree, kmshrink
--   SigSet                src/share/signal.c: sets of signals
--   Task                  src/include/book/task.h, TaskUnblock, TaskWakeUp, CancelTimer
--   Signal                src/kernel/signal.c: DoSendSignal (send_to), ForceSignal (force_to)
--                         and what they call
--   Signal/Groups         src/kernel/signal.c: DoSendSignal by pid, DoSendSignalGroup, and SysKill
--                         with SendBranch (sys_kill)
--   Signal/Actions        src/kernel/signal.c: SysSignal, SysSignalAction
--   Signal/Masks          src/kernel/signal.c: SysSignalProcessMask, SysSignalPending
--   Signal/Handling       src/kernel/signal.c: DoSignal, HandleSignal, BuildSignalFrame,
--                         SysSignalReturn
--   IoQueue               src/kernel/ioqueue.c: IoQueueInit, and one trial of IoQueuePut (try_put)
--                         and of IoQueueGet (try_get)
--   Bofs                  src/include/fs/bofs: the super block, the inode, and a volume that the
--                         operations of src/fs/bofs/inode.c change
--   Bofs/Layout           src/fs/bofs/super_block.c: the super block that BOFS_MakeFS fills in
--   Bofs/Sectors          src/fs/bofs/bitmap.c: BOFS_AllocBitmap, BOFS_FreeBitmap, BOFS_SyncBitmap,
--                         and AllocOneSector, FreeOneSector
--   Bofs/Inodes           src/fs/bofs/inode.c: BOFS_SyncInode, BOFS_EmptyInode,
--                         BOFS_LoadInodeByID, BOFS_CreateInode, BOFS_CopyInode
--   Bofs/Get, Bofs/Put    src/fs/bofs/inode.c: BOFS_GetInodeData, PutBlockByBlockIndex,
--                         BOFS_ReleaseInodeData and what they call
--   Scheduler             src/kernel/schedule.c: Schedule; TaskBlock, TaskYield, TaskUnblock,
--                         TaskWakeUp on all tasks, and SchedSoftirqHandler of src/drivers/clock.c
--   Mutex                 src/kernel/mutex.c: MutexLock and MutexUnlock as steps of a task that other
--                         tasks can come between, MutexTryLock, MutexIsLocked
--   Synclock              src/include/book/semaphore.h: SemaphoreDown, SemaphoreUp;
--                         src/kernel/synclock.c: SyncLock, SyncUnlock
--   Bofs/Directory        src/fs/bofs/dir_entry.c: BOFS_SearchDirEntry, BOFS_LoadDirEntry,
--                         BOFS_SyncDirEntry; the end of BOFS_RemoveDir (remove_entry)
--   Bofs/Paths            src/fs/bofs/dir.c: BOFS_ParsePathAfterward, BOFS_WashPath,
--                         BOFS_PathToDrive, with strmet of src/share/string.c
--   Bofs/Drives           src/fs/bofs/drive.c; BOFS_MakeAbsPath, BOFS_GetDriveByPath and what
--                         BOFS_ChangeCWD stores of src/fs/bofs/dir.c; the beginning that the calls of
--                         src/fs/symphyses.c share (final_path)
--   Timer                 src/drivers/timer.c; src/kernel/sleep_wakeup.c: TaskSleep up to the
--                         switch (task_sleep) and from there (task_sleep_return), SysSleep
--   Alarm                 src/kernel/alarm.c: UpdateAlarmSystem (a round of its loop is tick),
--                         SysAlarm
-- The other files below these hold proofs, and each Tests file the runs at concrete inputs.
--
-- State is passed on explicitly: an operation takes the record it changes and returns it. The
-- names are those of the C functions in lower case; a linked list that the code walks is a list,
-- split in two where the code keeps a pointer into it. Numbers are natural numbers, and a 32-bit
-- operation writes out its wrap-around; an `int` that may be negative is its bit pattern.
--
-- Bounds and fuel: the loops of BitmapScan run on fuel. The first takes at most one round for each
-- byte, the second at most eight, since 1 << 8 is 0 as a byte, and the third counts down
-- in the source. The loop of DoSignal runs over the 31 signals. Every other loop goes down a list
-- or a count. The waiting loops of the mutex are steps of its tasks: its count moves by one in a
-- step and cannot wrap around in fewer than 2^31.
--
-- GroupAllocObjcet takes at most two rounds, and its fuel is the list of what AllocPages gives.
--
-- Outside the model: memory from kmalloc is a parameter, whether it is granted and what it holds;
-- page tables and the hardware; the locks around each operation, which run on one processor with
-- interrupts off; what other tasks do while a stopped one is off the processor, which is a
-- parameter of DoSignal; SysExit, whose call ends DoSignal. A volume of Bofs is a function from
-- block numbers to words, a directory one from block numbers to entries, and which calls of kmalloc, BlockRead and BlockWrite fail is a parameter.
-- Task switches, spin locks, the rest of the file system, the block layer, network, drivers and user
-- programs are not modelled. MutexTryLock, which nothing calls, is not a step of the mutex: its two
-- parts can be parted by another task. The operations of a semaphore and of a synclock do not turn
-- interrupts off, so that other tasks and signals can come in between; only what the calls of one task
-- do without that is modelled. Names are taken to fit the buffers that paths are parsed into, where a
-- theorem does not say so itself.
pub mod Prelude
pub mod Scheduler
pub mod Bits
pub mod Memory
pub mod Mutex
pub mod Strings
pub mod Synclock
pub mod Bitmap
pub mod Bofs
pub mod VmArea
pub mod MemCache
pub mod VmSpace
pub mod SigSet
pub mod Task
pub mod Signal
pub mod IoQueue
pub mod Alarm
pub mod Timer
