-- ===== src/Mem.antt =====
-- Memory management: src/mem.
pub mod Accounting
pub mod Alloc
pub mod Phys
pub mod Stack
pub mod Virt
pub mod Vmar
