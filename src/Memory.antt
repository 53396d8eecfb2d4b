-- ===== src/Memory.antt =====
-- src/memory
pub mod Address
pub mod Layout
pub mod Frame
pub mod Paging
pub mod Boot
