-- ===== src/Vm.antt =====
-- Physical and virtual memory: kern/arch/mips/vm.
pub mod Coremap
pub mod Addrspace
pub mod Fault
mod Tests
