-- ===== src/Kernlib.antt =====
-- The kernel's support library: kern/lib and kern/include/array.h.
pub mod Slice
pub mod Array
pub mod Bits
pub mod Bitmap
pub mod Queue
pub mod Tests
