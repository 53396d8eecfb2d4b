-- ===== src/Kernel/Start.antt =====
-- The boot path from the loader to the loop that the kernel ends in.
use zkrnl.Base.{ℕ, ◌/◌, ◌^◌, ◌<◌, ◌≡◌, List, ok, arith, ◌==◌, true, some, length, All, ◌++◌}
use zkrnl.Text.{Bytes, codes}
use zkrnl.Console.{Shows-append}
use zkrnl.Multiboot.{MultibootInfo, MemoryRegion, MemoryMap, memory_map}
use zkrnl.Multiboot.Walk.{Yields}
use zkrnl.Multiboot.Report.{print_memory_map}
use zkrnl.Multiboot.Report.Shown.{report, print_memory_map-report}
use zkrnl.Memory.Layout.{Layout, IsLinked}
use zkrnl.Memory.Address.{FrameNumber}
use zkrnl.Memory.Frame.Bitmap.{new}
use zkrnl.Memory.Frame.Init.Publish.{IsClear}
use zkrnl.Memory.Paging.Translate.{translate, Translation}
use zkrnl.Memory.Paging.Directory.{Build}
use zkrnl.Memory.Paging.Directory.Init.{IsSmall}
use zkrnl.Memory.Paging.Directory.Loaded.{kernel_view}
use zkrnl.Memory.Paging.Switch.{
  ControlRegisters, load_directory, load_directory_lem, kernel_may_write,
}
use zkrnl.Memory.Boot.{init, init_lem, IsSpare}
use zkrnl.Vga.{Display, clear, print}
use zkrnl.Vga.Screen.{IsOnScreen}
use zkrnl.Vga.Sink.{vga_console, print-IsOnScreen}
use zkrnl.Kernel.{Machine, kernel_main, bootloader_magic}

abbrev pub first_line : Bytes
first_line = codes "zkrnl32 booting\n"

abbrev pub final_line : Bytes
final_line = codes "memory: paging active, frame allocator online\n"

-- What the console shows of a boot.
abbrev pub boot_text : List MemoryRegion → Bytes
boot_text rs = first_line ++ (report rs ++ final_line)

pub clear-IsOnScreen : (d : Display) → IsOnScreen d → IsOnScreen (clear d)
unfolding clear
clear-IsOnScreen d on = record { col = on.col; row = on.row }

kernel_main-eq :
    (l : Layout) (bytes : ℕ → ℕ) (info : MultibootInfo) (m : Machine) {d₁ d₂ d₃ : Display}
    {pd : FrameNumber} {build : Build} {r : ControlRegisters}
    → print first_line (clear m.display) ≡ ok d₁
    → print_memory_map vga_console bytes info d₁ ≡ ok d₂
    → init l bytes info m.build ≡ ok (pd, build)
    → load_directory pd m.registers ≡ ok r
    → print final_line d₂ ≡ ok d₃
    → kernel_main l bytes bootloader_magic info m
      ≡ ok (record m { display = d₃; build = build; registers = r })
unfolding kernel_main
kernel_main-eq l bytes info m booting reported memory loaded online =
    rw (booting, reported, memory, loaded, online)

-- On the loader's magic number, a linked image that ends within the first 4 MiB, a map that the iterator
-- walks to its end, whose regions stay clear of the 4 GiB limit, with three spare frames in the low
-- 4 MiB, and a cursor on the screen, `kernel_main` reaches its final loop. The console then shows the
-- boot text with the report on the map, typed on the cleared screen. `CR3` holds the address of a
-- directory that the processor walks, for every address below the last slot, to exactly the kernel's
-- view, and the kernel itself may write exactly to the writable pages of that view.
pub kernel_main-spins :
    (l : Layout) (bytes : ℕ → ℕ) (info : MultibootInfo) (map : MemoryMap) (rs : List MemoryRegion)
    (f g h : ℕ) (words : ℕ → ℕ → ℕ) (m : Machine)
    → IsLinked l
    → IsSmall l
    → memory_map bytes info ≡ some map
    → length map.buf < 2 ^ 32
    → Yields map rs true
    → All IsClear rs
    → IsSpare l rs f
    → IsSpare l rs g
    → IsSpare l rs h
    → f < g
    → g < h
    → IsOnScreen m.display
    → m.build ≡ record { memory = words; allocator = new }
    → (m' : Machine) × (kernel_main l bytes bootloader_magic info m ≡ ok m')
      × (print (boot_text rs) (clear m.display) ≡ ok m'.display)
      × IsOnScreen m'.display
      × ((v : ℕ)
          → v / 2 ^ 22 < 1023
          → translate (m'.build.memory (m'.registers.cr3 / 4096)) m'.build.memory v
            ≡ kernel_view l v)
      × ((t : Translation) → kernel_may_write m'.registers t ≡ (t.writable == 1))
kernel_main-spins l bytes info map rs f g h words m linked small map_e short yields clean spare_f
      spare_g spare_h fg gh on start =
    let (d₁, e₁, on₁) =
      print-IsOnScreen first_line (clear m.display) (clear-IsOnScreen m.display on) in
    let (d₂, shown, e₂, on₂) =
      print_memory_map-report vga_console bytes info d₁ map rs on₁ map_e short yields in
    let (d₃, e₃, on₃) = print-IsOnScreen final_line d₂ on₂ in
    let (pd, build, memory, low, view) =
      init_lem l bytes info words map rs f g h linked small map_e short yields clean spare_f spare_g
        spare_h fg gh in
    let (r, loaded, cr3, bits, writes) = load_directory_lem pd m.registers (omega arith) in
    let current : r.cr3 / 4096 ≡ pd = omega arith in
    let text =
      Shows-append vga_console first_line (report rs ++ final_line) (e₁, on₁)
        (Shows-append vga_console (report rs) final_line (shown, on₂) (e₃, on₃)) in
    (
      record m { display = d₃; build = build; registers = r },
      kernel_main-eq l bytes info m e₁ e₂ (rw start memory) loaded e₃,
      text.0,
      text.1,
      λ v below. rw current (view v below),
      writes,
    )
