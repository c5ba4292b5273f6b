-- ===== src/Proc.antt =====
-- Processes: kern/proc/proc.c and the process system calls of kern/syscall/proc_syscalls.c.
pub mod Table
pub mod Threads
pub mod Syscalls
pub mod System
pub mod Tests
