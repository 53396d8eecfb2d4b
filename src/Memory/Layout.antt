-- ===== src/Memory/Layout.antt =====
-- src/memory/layout.rs and src/stack.rs: the addresses that the linker script (boot/linker.ld) and the
-- boot stub fix. They are a parameter of the model; `IsLinked` says what the script guarantees.
use zkrnl.Base.{ℕ, ◌+◌, ◌%◌, ◌≤◌, ◌<◌, ◌^◌, ◌≡◌}

-- One field for each linker symbol that the kernel reads as an address.
pub record Layout : Type 0 where
  pub kernel_phys_start_addr : ℕ
  pub kernel_phys_end_addr : ℕ
  pub kernel_virt_start_addr : ℕ
  pub kernel_data_start_addr : ℕ
  pub kernel_virt_end_addr : ℕ
  pub stack_guard_addr : ℕ

abbrev pub kernel_virtual_base : ℕ
kernel_virtual_base = 0xC000_0000

-- What boot/linker.ld promises: the image is loaded at 2 MiB, its high half follows the boot section
-- at the fixed offset, the markers between sections are page-aligned and in order, and the image ends
-- at the same byte in both views.
pub record IsLinked (l : Layout) : Type 0 where
  pub loaded : l.kernel_phys_start_addr ≡ 0x20_0000
  pub after_boot : kernel_virtual_base + l.kernel_phys_start_addr ≤ l.kernel_virt_start_addr
  pub text_first : l.kernel_virt_start_addr ≤ l.kernel_data_start_addr
  pub data_next : l.kernel_data_start_addr ≤ l.stack_guard_addr
  pub guard_inside : l.stack_guard_addr < l.kernel_virt_end_addr
  pub same_end : l.kernel_virt_end_addr ≡ kernel_virtual_base + l.kernel_phys_end_addr
  pub start_aligned : l.kernel_virt_start_addr % 4096 ≡ 0
  pub data_aligned : l.kernel_data_start_addr % 4096 ≡ 0
  pub guard_aligned : l.stack_guard_addr % 4096 ≡ 0
  pub end_aligned : l.kernel_virt_end_addr % 4096 ≡ 0
  pub in_address_space : l.kernel_virt_end_addr < 2 ^ 32
