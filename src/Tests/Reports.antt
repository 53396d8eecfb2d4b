-- ===== src/Tests/Reports.antt =====
-- Texts, the stack dump and the panic handler at concrete inputs.
use zkrnl.Base.{
  ◌++◌, ℕ, ◌+◌, ◌/◌, ◌%◌, ◌≡◌, refl, ok, panic, out_of_bounds, overflow, List, true, some, none,
  ◌⊎◌, Result, arith, leb, ◌==◌, if◌then◌else◌, false, ◌&&◌,
}
use zkrnl.Text.{Bytes, codes}
use zkrnl.Console.{Shows}
use zkrnl.Stack.{StackBounds, dump_stack_from}
use zkrnl.Stack.Dump.{IsStack, Answers, dump_text, dump_stack_from-Shows}
use zkrnl.Multiboot.{MemoryMap, MemoryRegion, memory_map}
use zkrnl.Multiboot.Walk.{Yields}
use zkrnl.Multiboot.Report.{print_memory_map}
use zkrnl.Multiboot.Report.Shown.{report, no_map_text, print_memory_map_lem}
use zkrnl.Memory.Paging.Switch.{ControlRegisters}
use zkrnl.Memory.Paging.Debug.{flags_debug}
use zkrnl.Memory.Paging.Debug.Names.{listed, names_in, bit_names, flags_debug_lem}
use zkrnl.Memory.Frame.Bitmap.{new as empty_bitmap}
use zkrnl.Vga.{Display, new, print, print_color}
use zkrnl.Vga.Screen.{IsOnScreen}
use zkrnl.Vga.Color.{Color, color_bits}
use zkrnl.Vga.Sink.{vga_console}
use zkrnl.Kernel.{Machine, panic_handler}
use zkrnl.Kernel.Panic.{panic_text, panic_handler-halts}
use zkrnl.Tests.Firmware.{firmware, info}

abbrev pub screen : Display
screen = record { writer = new; memory = λ a. 0 }

pub screen-IsOnScreen : IsOnScreen screen
screen-IsOnScreen = record { col = omega arith; row = omega arith }

print_memory_map_lem_example :
    ((memory_map firmware info ≡ none)
      × ((s' : Display) × (vga_console.printk_color (color_bits Color.yellow) no_map_text screen
            ≡ ok s')
          × (print_memory_map vga_console firmware info screen ≡ ok s')
          × vga_console.IsReady s'))
    ⊎ ((m : MemoryMap) × (rs : List MemoryRegion) × (memory_map firmware info ≡ some m)
        × ((Yields m rs true
              × ((s' : Display) × (vga_console.printk (report rs) screen ≡ ok s')
                  × (print_memory_map vga_console firmware info screen ≡ ok s')
                  × vga_console.IsReady s'))
            ⊎ (Yields m rs false
                × (print_memory_map vga_console firmware info screen ≡ panic overflow))))
print_memory_map_lem_example =
    print_memory_map_lem vga_console firmware info screen screen-IsOnScreen (omega arith)

abbrev pub stack : StackBounds
stack = record { stack_bottom_addr = 0xC020_4000; stack_top_addr = 0xC021_4000 }

-- Memory that answers the aligned reads of the stack, and faults elsewhere.
abbrev stack_only : ℕ → Result ℕ
stack_only a =
    if a % 4 == 0 && (leb 0xC020_4000 a && leb (a + 4) 0xC021_4000)
    then ok (a / 2)
    else panic out_of_bounds

stack-Answers : Answers stack stack_only (λ a. a / 2)
stack-Answers a aligned above below = ground arith

pub stack-IsStack : IsStack stack
stack-IsStack = record { ordered = omega arith; in_address_space = omega arith }

dump_stack_from-Shows_example :
    (s' : Display) × (dump_stack_from vga_console stack_only stack 0xC021_3FF1 16 screen ≡ ok s')
    × Shows vga_console (dump_text stack (λ a. a / 2) 0xC021_3FF1 16) screen s'
dump_stack_from-Shows_example =
    dump_stack_from-Shows vga_console stack_only stack (λ a. a / 2) stack-Answers stack-IsStack
      0xC021_3FF1 16 screen screen-IsOnScreen

abbrev pub registers : ControlRegisters
registers = record { cr0 = 0x8000_0011; cr3 = 0x20_1000 }

abbrev pub machine : Machine
machine = record {
  display = screen;
  build = record { memory = λ f j. 7; allocator = empty_bitmap };
  registers = registers;
  panicking = false;
}

panic_handler-halts_example :
    (m' : Machine) × (panic_handler stack stack_only 0xC021_3F00 (codes "out of frames") machine
      ≡ ok m')
    × ((d : Display) × (print_color 0x4F (panic_text (codes "out of frames")) screen ≡ ok d)
        × (d.writer.color ≡ 0x0F)
        × (print (dump_text stack (λ a. a / 2) 0xC021_3F00 16) d ≡ ok m'.display))
    × IsOnScreen m'.display
    × (m'.build ≡ machine.build)
    × ((esp' : ℕ) (message' : Bytes) → panic_handler stack stack_only esp' message' m' ≡ ok m')
panic_handler-halts_example =
    panic_handler-halts stack stack_only (λ a. a / 2) 0xC021_3F00 (codes "out of frames") machine
      stack-IsStack stack-Answers screen-IsOnScreen refl

flags_debug_lem_example :
    flags_debug 0x103 ≡ codes "PageFlags(" ++ (listed (names_in 0x103 bit_names) ++ codes ")")
flags_debug_lem_example = flags_debug_lem 0x103
