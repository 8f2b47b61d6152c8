-- ===== src/Memory.antt =====
-- munux-os/kernel/memory: the physical frames, the paging and the byte routines.
pub mod Pmm
pub mod Bytes
pub mod Vmm
pub mod Heap
