-- ===== src/Usermem.antt =====
-- Moving data between the kernel and its programs: kern/vm/copyinout.c and kern/lib/uio.c.
pub mod Copyinout
pub mod Uio
mod Tests
