-- ===== src/Memory/Paging/Directory/Boot.antt =====
-- What the bootstrap directory maps.
use zkrnl.Base.{
  ℕ, ◌+◌, ◌-◌, ◌≡◌, refl, ok, arith, ltb, leb, if◌then◌else◌, update, none, some, ◌&&◌,
}
use zkrnl.Memory.Layout.{kernel_virtual_base}
use zkrnl.Memory.Paging.Flags.{kernel_rw}
use zkrnl.Memory.Paging.Entry.{for_huge_page}
use zkrnl.Memory.Paging.Directory.{bootstrap}
use zkrnl.Memory.Paging.Translate.{translate}

abbrev directory : ℕ → ℕ
directory = update (update (λ _. 0) 0 131) 768 131

bootstrap-eq : bootstrap ≡ ok directory
unfolding bootstrap for_huge_page kernel_rw
bootstrap-eq = refl

-- The bootstrap directory is built without a failed assertion, and the walk through it maps the first
-- 4 MiB of virtual memory and the 4 MiB from the kernel's virtual base on to the first 4 MiB of physical
-- memory, writable, and no other address, whatever any page table holds.
pub bootstrap-translate :
    (d : ℕ → ℕ) × (bootstrap ≡ ok d)
    × ((tables : ℕ → ℕ → ℕ) (v : ℕ)
        → translate d tables v ≡ (
            if ltb v 0x40_0000
            then some (record { phys = v; writable = 1 })
            else if leb kernel_virtual_base v && ltb v (kernel_virtual_base + 0x40_0000)
            then some (record { phys = v - kernel_virtual_base; writable = 1 })
            else none))
unfolding translate
bootstrap-translate = (directory, bootstrap-eq, λ tables v. ground arith)
