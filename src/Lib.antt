-- ===== src/Lib.antt =====
-- Verification of the OS/161 kernel, in the configuration ASST3 (OPT_A1, OPT_A2, OPT_A3 and UW are on).
--
-- What is modelled, by the file that models it. Paths are those of the repository.
--
-- Base: numbers and their Boolean tests, lists, arrays as functions of the index, sums over a family,
-- and `Result`, what a kernel function returns: `ok` for the error code 0, `err` for another code,
-- `panic` for a failed KASSERT or a call of panic, `fault` for an access outside an array or through a
-- null pointer.
--
-- Vm.Coremap: the frame allocator, kern/arch/mips/vm/dumbvm.c (vm_bootstrap, getppages, alloc_kpages,
-- free_kpages) over kern/arch/mips/vm/ram.c. `Memory` is the static variables of both files and the
-- coremap behind `core_map`. Search is the first-fit loop, Blocks the marking and the freeing loops,
-- Alloc the functions themselves, Boot the start.
--
-- Vm.Addrspace: the address spaces of dumbvm.c and kern/include/addrspace.h (as_create, as_destroy,
-- as_define_region, as_prepare_load, as_copy). They take frames from Vm.Coremap and keep one frame
-- number for each page; `Machine` is the coremap and the bytes of memory. Fill is the loop that gives
-- frames to a table, Prepare and Exhausted as_prepare_load with and without frames, Copy and Duplicate
-- as_copy, Define the regions.
--
-- Vm.Fault: vm_fault and as_activate of dumbvm.c over the TLB of kern/arch/mips/include/tlb.h. Region
-- is the choice of the frame, Tlb the entry that is written.
--
-- Kernlib: kern/lib/array.c with kern/include/array.h (Array), kern/lib/bitmap.c (Bits, Bitmap) and
-- kern/lib/queue.c (Queue); Slice is their common view as lists.
--
-- Synch.Threadlist: the doubly linked lists of kern/thread/threadlist.c, which wait channels hold their
-- sleeping threads in. The models of wait channels have a plain list in their place.
--
-- Synch.Semaphore: P and V of kern/thread/synch.c for any number of threads. A step is one access of
-- one thread to the shared state: a spinlock is a word that spinlock_acquire passes when it is 0, and
-- wchan_sleep and wchan_wakeone (kern/thread/thread.c) put a thread on the channel's list and take one
-- off. Synch.Lock is lock_acquire and lock_release in the same manner; Synch.Lock.Refine maps a lock to
-- a semaphore of one unit. Synch.Catmouse is kern/synchprobs/catmouse_synch.c over P and V.
--
-- Synch.Traffic: kern/synchprobs/traffic_synch.c. All that a vehicle does while it holds `lk_mutex` is
-- one step, by the mutual exclusion of Synch.Lock, and cv_wait ends a step.
--
-- Proc: processes, kern/proc/proc.c with kern/include/proc.h, and the system calls of
-- kern/syscall/proc_syscalls.c. Table is the creation and destruction of a process over procTable,
-- exitTable and aliveTable, Threads the threads of a process (with thread_fork of kern/thread/thread.c),
-- Syscalls sys_fork, sys_getpid, sys_waitpid and sys__exit and common_prog of kern/startup/menu.c.
-- Proc.System runs all processes together: what sys_waitpid and sys__exit do under lk_tb without a wait
-- is one step, by the mutual exclusion of Synch.Lock, and cv_wait ends a step. sys_fork, the start of a
-- process by the menu and the end of sys__exit are one step each too, though no lock covers the whole of
-- them: what others do in the middle is not modelled. Effects, Fork, Listed, Inversion and Leaving say
-- what each call changes, Invariant, Kept and Making are about the slots of the tables,
-- Sleeping, Steady and Progress about the processes that wait, Results about both. Addresses of
-- processes are handed out in order and not used again.
--
-- Usermem: kern/vm/copyinout.c (Copyinout) and kern/lib/uio.c (Uio) over the bytes of memory, with
-- memcpy and memmove of common/libc/string in Clib.Move. A trap of the processor in a copy ends it.
--
-- Clib.Text: the string functions of common/libc/string. Copying is strlen, strcpy and strcat, Compare
-- strcmp, Search strchr and strrchr, Tokens strtok_r. Clib.Number is atoi of common/libc/stdlib.
--
-- Bounds and fuel. Words are 32 bits, with the modulus written out where the code can wrap around. The
-- loops run on fuel that is enough: the coremap's loops on its number of frames; array_setsize on 34
-- rounds, up to 4 and from there to 2^31, above which the loop does not end;
-- q_grow on 32, with its assertion against overflow; q_addtail and q_grow, which call one another, on two
-- levels, since q_grow fills a queue that has room; q_len on the size of the ring; the TLB loops on its
-- 64 entries; uiomove on two turns a buffer and one more; uiomovezeros on its number of bytes;
-- the string functions on a limit of bytes, enough where the terminator stands within it, and a string
-- that is longer is a `fault`.
--
-- Parameters. kmalloc and kfree (kern/vm/kmalloc.c) are arguments: what they return and the machine they
-- leave. What memory and as_copy come to in a fork is an argument (`ForkLuck`), and so is the set of
-- addresses that the processor can reach in a copy. The entry that tlb_random replaces is an argument of vm_fault.
--
-- Not modelled: sys_execv and the files of a process, condition variables apart from the intersection
-- and waitpid, context switches and scheduling, program loading, the kernel heap, traps, the file
-- systems and devices, start-up and menu, the rest of the C library and the user programs. Locks around
-- the frame allocator are left out: each call of it is one step. Failure to allocate the struct itself
-- in bitmap_create, q_create, sem_create and lock_create is left out.
pub mod Base
pub mod Clib
pub mod Kernlib
pub mod Proc
pub mod Synch
pub mod Usermem
pub mod Vm
