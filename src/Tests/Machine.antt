-- ===== src/Tests/Machine.antt =====
-- Bringing the memory subsystem up at concrete inputs: 128 MiB of memory and a small kernel image.
use zkrnl.Base.{
  ℕ, ◌/◌, ◌^◌, ◌≤◌, ◌<◌, ◌≡◌, refl, [], ◌∷◌, ok, panic, page_fault, ◌-◌, ◌+◌, ◌*◌, overflow, arith,
  ◌==◌, if◌then◌else◌, inl, true, false, List, length, All, Ends,
}
use zkrnl.Multiboot.{MemoryRegion, MemoryMap, RegionKind, is_available, kind_is_available}
use mathlib.Core.Path.{subst}
use zkrnl.Multiboot.Walk.{Yields}
use zkrnl.Word.Bytes.{le_bytes}
use zkrnl.Multiboot.Encode.{Laid, encode, encode_all, IsKind, code_of, regions_of, Yields-encode}
use zkrnl.Memory.Frame.Bitmap.{FrameBitmap, FrameRun, frame_count, new}
use zkrnl.Memory.Frame.Bitmap.Update.{frame_bit}
use zkrnl.Memory.Frame.Alloc.Allocate.{IsValid}
use zkrnl.Memory.Frame.Init.{publish, init as init_frames}
use zkrnl.Memory.Frame.Init.Publish.{usable_in, IsClear, publish-from_zero}
use zkrnl.Memory.Frame.Init.Boot.{kept, init-usable_in, init-overflow}
use zkrnl.Memory.Paging.Translate.{translate, Translation}
use zkrnl.Memory.Paging.Switch.{kernel_may_write}
use zkrnl.Vga.{Display, clear as wipe, print, print_color}
use zkrnl.Vga.Screen.{IsOnScreen}
use zkrnl.Kernel.{Machine, kernel_main, panic_handler, bootloader_magic}
use zkrnl.Kernel.Start.{boot_text, kernel_main-spins}
use zkrnl.Kernel.Panic.{panic_text}
use zkrnl.Kernel.Mapped.{IsReserved, read_through, panic_handler-mapped}
use zkrnl.Stack.{StackBounds}
use zkrnl.Stack.Dump.{dump_text}
use zkrnl.Kernel.Ends.{kernel_main-Ends}
use zkrnl.Tests.Reports.{screen, screen-IsOnScreen, machine}
use zkrnl.Memory.Paging.Directory.{Build, init as init_paging}
use zkrnl.Memory.Paging.Directory.Loaded.{kernel_view, init-translate}
use zkrnl.Memory.Boot.Shared.{init-Reach}
use zkrnl.Memory.Frame.Alloc.Ownership.{Reach}
use zkrnl.Memory.Frame.Alloc.Books.{in_any}
use zkrnl.Memory.Boot.{init, new-IsValid, IsSpare, init_lem}
use zkrnl.Tests.Firmware.{
  ram_region, small_map, firmware, info, memory_map-info, small-short, small-Yields,
}
use zkrnl.Tests.Tables.{image, image-IsLinked, blank, supply-HasFrames}

pub clear : All IsClear (ram_region ∷ [])
clear = (inl (omega arith), tt)

init-usable_in_example :
    (b' : FrameBitmap) × (init_frames image small_map new ≡ ok b')
    × IsValid b'
    × (b'.search_hint ≤ 0)
    × ((f : ℕ)
        → f < frame_count
        → frame_bit b'.bitmap f ≡ (
            if kept image f
            then 0
            else if usable_in (ram_region ∷ []) f
            then 1
            else frame_bit new.bitmap f))
init-usable_in_example =
    init-usable_in image small_map new (ram_region ∷ []) image-IsLinked small-short small-Yields
      clear new-IsValid

-- A map with one available region that ends at 4 GiB.
abbrev high_region : MemoryRegion
high_region = record { base = 0x10_0000; len = 0xFFF0_0000; kind = RegionKind.available }

abbrev high_ram : Laid
high_ram = record { region = high_region; padding = 0 }

abbrev high_map : MemoryMap
high_map = record { buf = encode_all (high_ram ∷ []); offset = 0 }

high-short : length high_map.buf < 2 ^ 32
unfolding encode_all encode le_bytes code_of
high-short = omega arith

high-is : regions_of (high_ram ∷ []) ≡ high_region ∷ []
unfolding regions_of
high-is = refl

high-Yields : Yields high_map (high_region ∷ []) true
unfolding IsKind
high-Yields =
    subst (λ rs. Yields high_map rs true) high-is
      (Yields-encode (high_ram ∷ []) ((omega arith, omega arith, tt), tt) high-short)

high-is_available : is_available high_region ≡ true
unfolding is_available kind_is_available
high-is_available = refl

init-overflow_example : init_frames image high_map new ≡ panic overflow
init-overflow_example =
    init-overflow image high_map new [] high_region [] true high-short high-Yields tt new-IsValid
      high-is_available (omega arith) (omega arith) (omega arith)

abbrev all_ram : MemoryRegion
all_ram = record { base = 0; len = 2 ^ 32; kind = RegionKind.available }

all-is_available : is_available all_ram ≡ true
unfolding is_available kind_is_available
all-is_available = refl

publish-from_zero_example : publish new all_ram ≡ ok new
publish-from_zero_example = publish-from_zero new all_ram all-is_available refl (omega arith)

spare : (f : ℕ) → 0 < f → f < 512 → IsSpare image (ram_region ∷ []) f
unfolding is_available kind_is_available
spare f pos low = (omega arith, ground arith, ground arith)

init_lem_example :
    (pd : ℕ) × (s' : Build) × (init image firmware info
        (record { memory = λ f j. 7; allocator = new })
      ≡ ok (pd, s'))
    × (pd < 1024)
    × ((v : ℕ) → v / 2 ^ 22 < 1023 → translate (s'.memory pd) s'.memory v ≡ kernel_view image v)
init_lem_example =
    init_lem image firmware info (λ f j. 7) small_map (ram_region ∷ []) 1 2 3 image-IsLinked
      (omega arith) memory_map-info small-short small-Yields clear
      (spare 1 (omega arith) (omega arith)) (spare 2 (omega arith) (omega arith))
      (spare 3 (omega arith) (omega arith)) (omega arith) (omega arith)

init-Reach_example :
    (pd : ℕ) × (s' : Build) × (init image firmware info
        (record { memory = λ f j. 7; allocator = new })
      ≡ ok (pd, s'))
    × ((c : FrameBitmap) (held : List FrameRun)
        → Reach s'.allocator [] c held
        → ((k : ℕ)
            → k < frame_count
            → in_any held k ≡ true
            → (usable_in (ram_region ∷ []) k ≡ true) × (kept image k ≡ false))
          × ((memory : ℕ → ℕ → ℕ)
              → ((k : ℕ) → in_any held k ≡ false → memory k ≡ s'.memory k)
              → (v : ℕ) → v / 2 ^ 22 < 1023
              → translate (memory pd) memory v ≡ kernel_view image v))
init-Reach_example =
    init-Reach image firmware info (λ f j. 7) small_map (ram_region ∷ []) 1 2 3 image-IsLinked
      (omega arith) memory_map-info small-short small-Yields clear
      (spare 1 (omega arith) (omega arith)) (spare 2 (omega arith) (omega arith))
      (spare 3 (omega arith) (omega arith)) (omega arith) (omega arith)

kernel_main-spins_example :
    (m' : Machine) × (kernel_main image firmware bootloader_magic info machine ≡ ok m')
    × (print (boot_text (ram_region ∷ [])) (wipe screen) ≡ ok m'.display)
    × IsOnScreen m'.display
    × ((v : ℕ)
        → v / 2 ^ 22 < 1023
        → translate (m'.build.memory (m'.registers.cr3 / 4096)) m'.build.memory v
          ≡ kernel_view image v)
    × ((t : Translation) → kernel_may_write m'.registers t ≡ (t.writable == 1))
kernel_main-spins_example =
    kernel_main-spins image firmware info small_map (ram_region ∷ []) 1 2 3 (λ f j. 7) machine
      image-IsLinked (omega arith) memory_map-info small-short small-Yields clear
      (spare 1 (omega arith) (omega arith)) (spare 2 (omega arith) (omega arith))
      (spare 3 (omega arith) (omega arith)) (omega arith) (omega arith) screen-IsOnScreen refl

kernel_main-Ends_example :
    Ends (λ (m' : Machine). IsOnScreen m'.display) (kernel_main image firmware 0 info machine)
kernel_main-Ends_example =
    kernel_main-Ends image firmware 0 info machine (omega arith) screen-IsOnScreen

-- A stack above the guard page of `image`, and a machine that runs on the directory built for it.
abbrev pub kernel_stack : StackBounds
kernel_stack = record { stack_bottom_addr = 0xC029_1000; stack_top_addr = 0xC02A_1000 }

pub kernel_stack-IsReserved : IsReserved image kernel_stack
kernel_stack-IsReserved = record { after_guard = refl; size = refl; inside = omega arith }

built :
    (pd : ℕ) × (s : Build) × (init_paging image blank ≡ ok (pd, s))
    × (pd < 1024)
    × ((v : ℕ) → v / 2 ^ 22 < 1023 → translate (s.memory pd) s.memory v ≡ kernel_view image v)
    × (s.memory pd 1023 ≡ pd * 4096 + 3)
built = init-translate image blank image-IsLinked (omega arith) supply-HasFrames

built-frame : built.0 * 4096 / 4096 ≡ built.0
built-frame = omega arith

abbrev running : Machine
running = record machine {
  build = built.1;
  registers = record { cr0 = 0x8001_0011; cr3 = built.0 * 4096 };
}

panic_handler-mapped_example :
    ((m' : Machine) × (panic_handler kernel_stack
          (read_through running (λ p. p / 4))
          0xC02A_0FC0
          []
          running
        ≡ ok m')
      × ((d : Display) × (print_color 0x4F (panic_text []) screen ≡ ok d)
          × (print (dump_text kernel_stack (λ a. (a - 0xC000_0000) / 4) 0xC02A_0FC0 16) d
              ≡ ok m'.display)))
    × ((v : ℕ)
        → 0xC029_0000 ≤ v
        → v < 0xC029_0000 + 4096
        → read_through running (λ p. p / 4) v ≡ panic page_fault)
panic_handler-mapped_example =
    panic_handler-mapped image kernel_stack running (λ p. p / 4) 0xC02A_0FC0 [] image-IsLinked
      (omega arith) kernel_stack-IsReserved (λ v below. rw built-frame (built.4 v below))
      screen-IsOnScreen refl
