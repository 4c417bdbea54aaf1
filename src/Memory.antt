-- ===== src/Memory.antt =====
-- core/kernel/memory.c
pub mod Bytes
pub mod Heap
pub mod Store
pub mod Paging
pub mod Frames
mod Tests
