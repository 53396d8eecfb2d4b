-- ===== src/Utils.antt =====
-- src/utils: helpers shared by the kernel's components.
pub mod Bits
