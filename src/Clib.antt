-- ===== src/Clib.antt =====
-- The C library shared by the kernel and its programs: common/libc/string.
pub mod Move
pub mod Text
pub mod Number
pub mod Tests
