-- ===== src/Synch.antt =====
-- Synchronisation: kern/thread/synch.c over spinlocks and wait channels, and its clients.
pub mod Tests
pub mod Threads
pub mod Semaphore
pub mod Catmouse
pub mod Lock
pub mod Traffic
pub mod Threadlist
