-- ===== src/Gdt/Index.antt =====
-- src/gdt.rs: the module `index`, the places of the descriptors in the table.
use zkrnl.Base.{ℕ, ◌/◌, ◌≡◌, refl}
use zkrnl.Gdt.{kernel_code_selector, kernel_data_selector, kernel_stack_selector}

abbrev pub null : ℕ
null = 0

abbrev pub kernel_code : ℕ
kernel_code = 1

abbrev pub kernel_data : ℕ
kernel_data = 2

abbrev pub kernel_stack : ℕ
kernel_stack = 3

abbrev pub user_code : ℕ
user_code = 4

abbrev pub user_data : ℕ
user_data = 5

abbrev pub user_stack : ℕ
user_stack = 6

-- The selectors name these places.
selectors_lem :
    (kernel_code_selector / 8 ≡ kernel_code)
    × (kernel_data_selector / 8 ≡ kernel_data)
    × (kernel_stack_selector / 8 ≡ kernel_stack)
selectors_lem = (refl, refl, refl)
