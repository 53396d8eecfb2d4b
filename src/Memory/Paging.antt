-- ===== src/Memory/Paging.antt =====
-- src/memory/paging.rs: the 32-bit page tables. `Flags` and `Entry` pack and read entries, `Directory`
-- builds the bootstrap directory and the real one, and `Translate` describes the two-level walk that
-- the processor makes.
pub mod Flags
pub mod Entry
pub mod Directory
pub mod Translate
pub mod Switch
pub mod Ends
pub mod Running
pub mod Confined
pub mod Shared
pub mod Starved
pub mod Debug
