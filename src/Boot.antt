-- ===== src/Boot.antt =====
-- src/boot: the memory before the allocators work, the first page tables, and the start of the cores.
pub mod Early
pub mod Next
pub mod Handed
pub mod Account
pub mod Tables
pub mod Bitmap
pub mod Levels
pub mod NewTable
pub mod Walk
pub mod Filled
pub mod Covered
pub mod Cores
pub mod Segments
pub mod Setup
mod Tests
