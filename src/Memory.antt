-- ===== src/Memory.antt =====
-- memory/: the physical page bitmap and the kernel heap.
pub mod Pmm
pub mod Heap
mod Tests
