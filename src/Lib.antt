-- ===== src/Lib.antt =====
-- A teaching kernel in Rust, a workspace of small libraries and of kernels that combine them.
-- The model covers the libraries that carry the kernel's logic: synchronisation, task
-- management, signals, the layout of the file system on disk, and the kernel of chapter 8 that
-- puts them together, with its system calls and its trap loop.
--
-- How the parts interact: task-manage keeps the relations of processes and threads and drives a
-- store and a ready queue that the kernel supplies through two traits; ch8 implements the
-- traits. sync gives the kernel mutexes, semaphores and condition variables that answer which
-- thread goes on or wakes, and the kernel blocks or requeues that thread through task-manage.
--
-- Which file models which part:
-- - Sync/Cell.antt: IntrState, push_off, pop_off and UPIntrFreeCell of sync/src/lib.rs. The sie
--   bit is a field. A session is split into access, closure, pop and release of the borrow, in
--   the order of the source, with the place between the last two open for an interrupt.
-- - Sync/Mutex.antt, Sync/Condvar.antt, Sync/Semaphore.antt: MutexBlocking, Condvar and
--   Semaphore of sync/src/lib.rs. An operation is a closure on the inner value, run in a
--   session. The count of a semaphore is a 64-bit pattern, and its arithmetic wraps.
-- - TaskManage/Interface.antt: the traits Manage and Schedule of task-manage/src/lib.rs, as
--   records of operations, and the laws that the managers rely on.
-- - TaskManage/ProcRel.antt, TaskManage/ProcThreadRel.antt: the relations of a process; the two
--   structs share the child fields and their methods.
-- - TaskManage/PManager.antt, TaskManage/PThreadManager.antt: the two managers. A call of
--   expect on an absent value is a panic. The maps are association lists.
-- - KernelContext.antt: LocalContext of kernel-context/src/lib.rs, the registers of a thread
--   that does not run.
-- - Signal/Set.antt, Signal/State.antt: SignalSet and SignalImpl of signal-impl/src/lib.rs,
--   with SignalNo and SignalAction of signal-defs/src/lib.rs and SignalResult of
--   signal/src/lib.rs. A set is a 64-bit word; a signal number is its discriminant.
-- - EasyFs/Disk.antt, EasyFs/Bitmap.antt, EasyFs/DiskInode.antt: SuperBlock, Bitmap and
--   DiskInode of easy-fs/src/layout.rs, on a disk that gives the bytes of each block;
--   EasyFs/DiskInode/Access.antt: its read_at and write_at. EasyFs/Vfs.antt: Inode of
--   easy-fs/src/vfs.rs, which is decoded from its block and encoded back. EasyFs/DirEntry.antt:
--   DirEntry of the same file, with the test for a string as a parameter.
--   EasyFs/BlockCache.antt: BlockCache and BlockCacheManager of easy-fs/src/block_cache.rs,
--   with the reference counts as a parameter. EasyFs/File.antt: OpenFlags, UserBuffer and
--   FileHandle of easy-fs/src/vfs.rs, over an interface of an inode; EasyFs/UserBuffer.antt:
--   the iterator of UserBuffer; EasyFs/OnDisk.antt: the interface filled by the inodes on disk,
--   where an operation that panics has no result. EasyFs/Efs.antt: how easy-fs/src/efs.rs
--   divides the disk, and its allocators; EasyFs/Format.antt: what create, open and root_inode
--   do on the disk. Sizes and block numbers are u32 values, whose arithmetic wraps.
-- - Syscall.antt: the traits of syscall/src/kernel.rs and the dispatch of handle;
--   Syscall/Numbers.antt: the numbers of syscall/src/syscalls.rs.
-- - Kernel/Managers.antt: ProcManager and ThreadManager of ch8/src/main.rs.
--   Kernel/Process.antt: Thread and Process with their descriptors, stacks and waiters.
--   Kernel/Elf.antt, Kernel/Spawn.antt: the loader of programs, fork and exec. Kernel/Fs.antt:
--   the module fs. Kernel/State.antt, Kernel/Memory.antt, Kernel/Wake.antt: the static
--   variables, the access to user memory, and the helpers that wake and end threads.
--   Kernel/Calls.antt and the files below it, Kernel/SyscallContext.antt: the handlers of the
--   system calls. Kernel/Loop.antt: one round of the loop of rust_main;
--   Kernel/Loop/Decided.antt: what becomes of a thread after a trap.
-- - Kernel/Vm.antt: the interface of address spaces and physical memory that these use, which
--   stands for kernel-vm/src/lib.rs.
-- - KernelVm/AddressSpace.antt, KernelVm/Visitors.antt: AddressSpace of kernel-vm/src/lib.rs
--   with the visitors of its walks, over the page manager and the walker of the crate
--   page-table, which KernelVm/Interface.antt states; KernelVm/Filling.antt: the memory after
--   the fill of new pages. Kernel/Vm.antt is not yet connected with it.
--
-- A handler of a system call is a computation that may return early, change the kernel or
-- panic; a pointer to a thread or a process is its identifier, read and written through the
-- managers. What a thread does while it runs is a parameter: its context at the trap. The ELF
-- parser, the test for UTF-8, the clock and the answers of the console are parameters as well.
-- A read from the console that waits for input, and fuel that does not suffice for read_all or
-- find_next, are no result (none).
--
-- Panics are values of Outcome (Prelude/Panic.antt). Exit codes and other isize values are bit
-- patterns below 2 ^ 64; the code only moves them and compares them with literals, so no bound
-- is assumed of them. The loop of find_next takes fuel, one round for each identifier in the
-- ready queue and one more, which is shown to be enough.
--
-- The loops of increase_size and clear_size run a number of rounds that is known when they
-- start, and recur on that number. The loops of DiskInode::read_at and write_at recur on the
-- number of blocks from the first to the last that they touch. The other parts of easy-fs take
-- the block cache to be transparent, so that a closure of read or modify acts on the bytes of
-- its block.
--
-- Not modelled: the walker of the crate page-table and the page manager of ch8, the start of
-- the kernel before the loop, the earlier chapters, the assembly, the drivers, the build tools
-- and the user programs.
pub mod Prelude
pub mod Sync
pub mod Syscall
pub mod TaskManage
pub mod EasyFs
pub mod KernelContext
pub mod KernelVm
pub mod Signal
pub mod Kernel
mod Tests
