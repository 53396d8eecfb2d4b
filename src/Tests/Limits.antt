-- ===== src/Tests/Limits.antt =====
-- What the boot may write, where it stops, and its machine types, at concrete inputs.
use zkrnl.Base.{
  Result, out_of_bounds, ◌+◌, leb, ◌&&◌, if◌then◌else◌, ◌==◌, ℕ, ◌%◌, ◌≤◌, ◌<◌, ◌≡◌, ◌⊎◌, refl, [],
  ◌∷◌, ok, panic, out_of_frames, above_identity_map, arith, true, false, Ends,
}
use zkrnl.Word.Bit.{bit-zero}
use zkrnl.Text.{codes}
use zkrnl.Memory.Address.{FrameNumber}
use zkrnl.Memory.Frame.Bitmap.{frame_count, new}
use zkrnl.Memory.Frame.Bitmap.Update.{frame_bit}
use zkrnl.Memory.Frame.Init.Publish.{usable_in}
use zkrnl.Memory.Frame.Init.Boot.{kept}
use zkrnl.Memory.Paging.Directory.{Build, init as init_paging}
use zkrnl.Memory.Paging.Confined.{init-Confined}
use zkrnl.Memory.Paging.Starved.{init-panic}
use zkrnl.Memory.Boot.{init, new-IsValid}
use zkrnl.Memory.Boot.Kept.{init-kept}
use zkrnl.Kernel.{Machine, panic_handler}
use zkrnl.Tests.Firmware.{
  ram_region, small_map, firmware, info, memory_map-info, small-short, small-Yields,
}
use zkrnl.Kernel.Panic.{panic_text}
use zkrnl.Kernel.Visible.{StaysVisible, panic_handler-StaysVisible}
use zkrnl.Stack.Dump.{Answers}
use zkrnl.Vga.{Display, print_color}
use zkrnl.Tests.Tables.{image, image-IsLinked, blank, supply-HasFrames}
use zkrnl.Tests.Reports.{screen, screen-IsOnScreen, machine, stack, stack-IsStack}
use zkrnl.Tests.Machine.{clear}

init-Confined_example :
    Ends
      (λ ((pd, s') : FrameNumber × Build).
        (frame_bit blank.allocator.bitmap pd ≡ 1)
        × (frame_bit s'.allocator.bitmap pd ≡ 0)
        × ((f : ℕ) → frame_bit s'.allocator.bitmap f ≡ 1 → frame_bit blank.allocator.bitmap f ≡ 1)
        × ((f : ℕ)
            → frame_bit s'.allocator.bitmap f ≡ frame_bit blank.allocator.bitmap f
            → s'.memory f ≡ blank.memory f))
      (init_paging image blank)
init-Confined_example = init-Confined image blank image-IsLinked (omega arith) supply-HasFrames.0

init-kept_example :
    Ends
      (λ ((pd, s) : FrameNumber × Build).
        (f : ℕ)
        → f < frame_count
        → (kept image f ≡ true)
          ⊎ (usable_in (ram_region ∷ []) f ≡ false)
          ⊎ (frame_bit s.allocator.bitmap f ≡ 1)
        → s.memory f ≡ (λ i. f % 256))
      (init image firmware info (record { memory = λ f i. f % 256; allocator = new }))
init-kept_example =
    init-kept image firmware info (λ f i. f % 256) small_map (ram_region ∷ []) image-IsLinked
      (omega arith) memory_map-info small-short small-Yields clear

abbrev starved : Build
starved = record { memory = λ f i. 7; allocator = new }

init-panic_example :
    (((f : ℕ) → f < frame_count → frame_bit starved.allocator.bitmap f ≡ 0)
      × (init_paging image starved ≡ panic out_of_frames))
    ⊎ ((f : ℕ) × (1024 ≤ f)
        × (f < frame_count)
        × (frame_bit starved.allocator.bitmap f ≡ 1)
        × (init_paging image starved ≡ panic above_identity_map))
init-panic_example = init-panic image starved new-IsValid (λ f h. bit-zero (f % 32))

-- Bytes on the stack, and faults elsewhere.
abbrev byte_stack : ℕ → Result ℕ
byte_stack a =
    if a % 4 == 0 && (leb 0xC020_4000 a && leb (a + 4) 0xC021_4000)
    then ok (a % 256)
    else panic out_of_bounds

byte_stack-Answers : Answers stack byte_stack (λ a. a % 256)
byte_stack-Answers a aligned above below = ground arith

panic_handler-StaysVisible_example :
    (m' : Machine) × (panic_handler stack byte_stack 0xC021_3F00
        (codes "at frame.rs:1:\nout of frames")
        machine
      ≡ ok m')
    × ((d : Display) × (print_color 0x4F (panic_text (codes "at frame.rs:1:\nout of frames")) screen
          ≡ ok d)
        × StaysVisible (2 + 1) 0x4F d m'.display)
panic_handler-StaysVisible_example =
    panic_handler-StaysVisible stack byte_stack (λ a. a % 256) 0xC021_3F00
      (codes "at frame.rs:1:\nout of frames") machine stack-IsStack byte_stack-Answers
      (λ a. omega arith) (omega arith) screen-IsOnScreen refl (omega arith)
