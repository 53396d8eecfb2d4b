-- ===== src/Memory/Frame.antt =====
-- src/memory/frame.rs: the bitmap allocator of physical frames. `Bitmap` has the types and the loops
-- over masked words, `Alloc` the search, allocation and release, `Init` the first picture of memory, and
-- `Ends` shows that all of it ends.
pub mod Bitmap
pub mod Alloc
pub mod Init
pub mod Ends
