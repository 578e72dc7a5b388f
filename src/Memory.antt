-- ===== src/Memory.antt =====
-- src/kernel/src/memory: the kernel heap, regions of the address space and the memory layout.
pub mod Region
pub mod Layout
pub mod Physical
pub mod Heap
pub mod Virtual
mod Tests
