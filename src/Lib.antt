-- ===== src/Lib.antt =====
-- zkrnl32, a 32-bit x86 kernel in Rust: its boot path, from the Multiboot hand-off to the page
-- directory that the processor runs on and the loop that the kernel ends in, with its descriptor table,
-- the text console that it reports on, and the panic handler that it stops in.
--
-- The program. GRUB leaves a Multiboot information structure and enters the boot stub (boot/boot.asm),
-- which turns on paging with a bootstrap directory of two 4 MiB pages, installs the descriptor table
-- (src/gdt.rs) and calls kernel_main (src/lib.rs). That checks the loader's magic number, clears the
-- screen (src/vga.rs), prints the memory map and calls memory::init (src/memory/mod.rs), which walks the
-- map (src/multiboot.rs), builds a bitmap of free physical frames from it (src/memory/frame.rs, on the
-- bit masks of src/utils/bits.rs), and from frames of that allocator builds and loads the real page
-- directory (src/memory/paging.rs), in terms of the typed addresses of src/memory/address.rs and the
-- linker symbols of src/memory/layout.rs. A failed check anywhere enters the panic handler (src/lib.rs),
-- which shows the message and a dump of the stack (src/stack.rs) and halts. All text goes through the
-- macros of src/console.rs.
--
-- The files.
--   Base, Base/*: names of the library passed on, tests on numbers, lists, and the result of code that
--     may panic (Base/Panic: `Result`, with one `Fault` per kind of panic, and `usize` arithmetic with
--     its overflow checks). Word, Word/*: u32 shifts and complement, and the bits and the little-endian
--     bytes of a number.
--   Utils/Bits: clipped_bit_range_mask of src/utils/bits.rs; Utils/Bits/Mask: its specification.
--   Memory/Address, Memory/Address/Virt: PhysAddr, FrameNumber, VirtAddr and PageNumber;
--     Memory/Address/Laws: their arithmetic.
--   Memory/Layout: the linker symbols as a record, and what boot/linker.ld promises of them.
--   Memory/Frame/Bitmap: FrameRun, FrameBitmap, word_masks, set_free, set_occupied, any_free_in;
--     Covers, Update and Any below it specify them by the bit of each frame.
--   Memory/Frame/Alloc: is_free, scan_for_run, find_free_run, allocate, allocate_one, free; Scan,
--     Allocate and Free below it are their specifications, and Ownership is the allocator over time, a
--     step relation between a bitmap and the runs that callers hold.
--     Alloc/Books accounts for every frame over time, Alloc/Count counts them, and Alloc/Order compares
--     orders of release. Memory/Frame/Ends: all of it ends, on any bitmap.
--   Memory/Frame/Init: mark_free, reserve_bytes and init; Publish and Boot below it.
--   Multiboot: MultibootInfo, the iterator MemoryMap, MemoryRegion, RegionKind, and the running
--     total of print_memory_map; Walk, Region, Total and Encode below it. Multiboot/Report: print_memory_map
--     itself; Report/Shown below it: the report that it shows. Report/Run is
--     print_memory_map with the console that a panic leaves, with Report/Agrees, Report/Ready and Report/Broken.
--   Memory/Paging/Flags, Entry, Directory: PageFlags, the two entry types, PageDirectory::bootstrap
--     and init with its helpers. Memory/Paging/Translate is the two-level walk of the processor, the
--     specification that the directories are held to. Below Directory, Supply counts the low frames that
--     the builder may take, Invariant is the shape of a directory under construction, Table finds the page
--     table of a slot, Map is map_bootstrap, Pages the loops, Init their bodies, and Entries and Loaded the whole.
--     Memory/Paging/Switch is the closing assembly of init, which loads CR3 and sets CR0.WP, and
--     Memory/Paging/Debug the Debug texts of flags, entries and addresses. Memory/Paging/Ends: the
--     builder ends; Memory/Paging/Running: what stays mapped after the switch. Memory/Paging/Confined: the frames that the
--     builder writes to, with Writes and Map below it; Memory/Paging/Starved: the builder without a low
--     frame; Memory/Paging/Shared: its tables among the frames that others use.
--   Memory/Boot: memory::init, the composition of all of these up to that assembly;
--     Memory/Boot/Kept: what it leaves alone; Memory/Boot/Shared: what holds after it, whatever the
--     callers of the allocator do.
--   Text: the forms of core::fmt that the source writes; Text/Digits reads numbers back, and Text/Ascii
--     says which texts are lines.
--   Console: printk! and printk_color! as operations and laws, which the reporting code takes as a
--     parameter and Vga/Sink fills with the text writer.
--   Stack, Stack/Dump: dump_stack_from of src/stack.rs, what it reads and shows, and Stack/Rows: how
--     many rows that takes.
--   Kernel: kernel_main and the panic handler; Kernel/Start is the boot that succeeds, Kernel/Panic the
--     way that it stops, and Kernel/Ends says that there is no third outcome.
--     Kernel/Mapped reads the stack through the page directory, and Kernel/Visible is what the screen
--     shows after a panic. Kernel/Run is kernel_main with the display that a panic leaves: Kernel/Agrees
--     compares the two, Kernel/Shown is about that display, and Kernel/Fatal about the handler that
--     takes it over, with the stack that Kernel/Early reads through the bootstrap directory.
--   Gdt: the bootstrap descriptor table of src/gdt.rs and install_gdt, which boot/boot.asm calls;
--     Gdt/Index is its module index, Gdt/Store is the table in memory, and Gdt/Decode reads descriptors as the processor does.
--   Volatile, Volatile/Move: the byte copy of src/volatile.rs. Vga, Vga/Color: the text writer of
--     src/vga.rs and its colors; Vga/Screen says what the buffer shows, Vga/Typing and
--     Vga/Terminal what each byte types, and Vga/Rows and Vga/Written how a text moves what
--     stands above it.
--   Tests: the theorems at concrete inputs.
--
-- State. A `&mut self` method takes the structure and returns it. The bitmap is a function from word
-- indices to u32 words, with the index check against WORD_COUNT written out. Physical memory as the page
-- builder sees it is a function from a frame and a word index to a u32, and a pointer to a paging frame
-- is the frame's number, since the bootstrap map makes the two agree; the firmware's tables are read
-- before, as a function from byte addresses. The types over u32 and usize are native numbers: sums,
-- differences and products are checked for overflow as the dev profile of Cargo.toml does, with
-- `as` casts and shifts cut to 32 bits. usize has 32 bits. A panic ends the computation, so it is a
-- result with no state (Base/Panic), and the panic handler is a function of any machine. Where the text
-- on the screen at a panic matters, the code is an action (Base/Action), whose state comes back after a
-- panic too; a single write to the console that panics within counts there as not begun, which no write
-- with the cursor on the screen does. What memory and the registers hold at a panic is not modelled. Three views of memory stand side by
-- side: the buffer of the writer, the tables of the firmware, and the frames that the page builder writes;
-- the dump reads the stack through a fourth, a function that may fault.
-- The bytes that install_gdt writes are in a fifth, without the stack that it runs on.
-- Memory/Boot/Kept is about the builder's writes and the frames of the other views. Naked and inline
-- assembly is modelled by what its straight-line code leaves in the registers.
--
-- Loops. `for` loops over a bounded range are recursion on the rounds that are left (scan, for_pages).
-- The iterators word_masks and MemoryMap run on fuel: one round per frame left plus one, and one round
-- per byte of the map plus one. That is enough since a mask takes one frame or more, and an entry moves
-- the cursor on by four bytes or more. `fuel_spent` marks a model out of rounds
-- (Base/Outcome: code that ends without it).
--
-- Not modelled: the two endless loops, of kernel_main and of the panic handler, which change no state;
-- the re-exports of src/prelude.rs and src/utils/mod.rs; accessors and pointer casts; derived Debug of
-- types that nothing prints, and the text of a panic, which the handler takes as bytes. Reads of the
-- firmware's memory do not fault, as the SAFETY comments in src/multiboot.rs presume, and the builder takes
-- frame 0 for any other, though a pointer to it is null: FrameBitmap::init reserves that frame. core::fmt is not
-- this program's, so Text models no more than the forms that the source uses. The boot stub
-- (boot/boot.asm) and the linker script are not Rust: what they promise is a hypothesis, and the contents
-- of firmware memory and of the stack are parameters.
pub mod Base
pub mod Word
pub mod Text
pub mod Console
pub mod Utils
pub mod Memory
pub mod Multiboot
pub mod Stack
pub mod Gdt
pub mod Volatile
pub mod Vga
pub mod Kernel
mod Tests
