-- ===== src/Tests/Tables.antt =====
-- The page-table builder at concrete inputs: an allocator with all frames free, and an empty directory.
use zkrnl.Base.{
  none, ◌⊎◌, ℕ, ◌+◌, ◌*◌, ◌/◌, ◌^◌, ◌<◌, ◌≡◌, refl, ok, arith, ◌==◌, if◌then◌else◌, update, inl,
  ◌-◌, ◌%◌, ◌≤◌,
}
use zkrnl.Word.Bit.{bit}
use zkrnl.Memory.Layout.{Layout, IsLinked}
use zkrnl.Memory.Frame.Bitmap.{FrameBitmap}
use zkrnl.Memory.Paging.Translate.{translate}
use zkrnl.Memory.Paging.Directory.{Build, map_bootstrap, init}
use zkrnl.Memory.Paging.Directory.Supply.{HasFrames}
use zkrnl.Memory.Paging.Directory.Invariant.{IsBuilt}
use zkrnl.Memory.Paging.Directory.Map.{entry_of, map_bootstrap_lem}
use zkrnl.Memory.Paging.Directory.Table.{Budget}
use zkrnl.Memory.Paging.Running.{leads_to, init_keeps_running}
use zkrnl.Memory.Paging.Directory.Loaded.{kernel_view, init-translate}

-- Frames 1 to 31 are free.
abbrev pub supply : FrameBitmap
supply = record { bitmap = λ i. if i == 0 then 0xFFFF_FFFE else 0; search_hint = 0 }

pub supply-HasFrames : HasFrames supply 3
unfolding bit
supply-HasFrames = (
  record { hint_in_range = omega arith; words = λ i. ground arith },
  (
    1,
    omega arith,
    omega arith,
    refl,
    (2, omega arith, omega arith, refl, (3, omega arith, omega arith, refl, tt)),
  ),
)

abbrev pub image : Layout
image = record {
  kernel_phys_start_addr = 0x20_0000;
  kernel_phys_end_addr = 0x30_0000;
  kernel_virt_start_addr = 0xC020_1000;
  kernel_data_start_addr = 0xC028_0000;
  kernel_virt_end_addr = 0xC030_0000;
  stack_guard_addr = 0xC029_0000;
}

pub image-IsLinked : IsLinked image
image-IsLinked = record {
  loaded = refl;
  after_boot = omega arith;
  text_first = omega arith;
  data_next = omega arith;
  guard_inside = omega arith;
  same_end = refl;
  start_aligned = refl;
  data_aligned = refl;
  guard_aligned = refl;
  end_aligned = refl;
  in_address_space = omega arith;
}

abbrev pub blank : Build
blank = record { memory = λ f j. 0; allocator = supply }

init-translate_example :
    (pd : ℕ) × (s' : Build) × (init image blank ≡ ok (pd, s'))
    × (pd < 1024)
    × ((v : ℕ) → v / 2 ^ 22 < 1023 → translate (s'.memory pd) s'.memory v ≡ kernel_view image v)
    × (s'.memory pd 1023 ≡ pd * 4096 + 3)
init-translate_example = init-translate image blank image-IsLinked (omega arith) supply-HasFrames

init_keeps_running_example :
    (pd : ℕ) × (s' : Build) × (init image blank ≡ ok (pd, s'))
    × ((i : ℕ)
        → i < 2 * 80 * 25
        → translate (s'.memory pd) s'.memory (0xB8000 + i) ≡ leads_to (0xB8000 + i) 1)
    × ((i : ℕ)
        → i < 8 * 7
        → translate (s'.memory pd) s'.memory (0x800 + i) ≡ leads_to (0x800 + i) 1)
    × ((v : ℕ)
        → 0xC020_1000 ≤ v
        → v < 0xC028_0000
        → translate (s'.memory pd) s'.memory v ≡ leads_to (v - 0xC000_0000) 0)
    × ((v : ℕ)
        → 0xC028_0000 ≤ v
        → v < 0xC030_0000
        → (v < 0xC029_0000) ⊎ (0xC029_1000 ≤ v)
        → translate (s'.memory pd) s'.memory v ≡ leads_to (v - 0xC000_0000) 1)
    × ((v : ℕ) → 0xC029_0000 ≤ v → v < 0xC029_1000 → translate (s'.memory pd) s'.memory v ≡ none)
    × ((v : ℕ)
        → 0xFFFF_F000 ≤ v
        → v < 2 ^ 32
        → translate (s'.memory pd) s'.memory v ≡ leads_to (pd * 4096 + v % 4096) 1)
init_keeps_running_example =
    init_keeps_running image blank image-IsLinked (omega arith) supply-HasFrames

-- A directory in frame 0 that maps nothing.
abbrev empty_directory : Build
empty_directory = record { memory = λ f j. if j == 1023 then 3 else 0; allocator = supply }

empty-IsBuilt : IsBuilt 0 (λ _. 0) empty_directory
unfolding bit
empty-IsBuilt = record {
  low = omega arith;
  used = refl;
  self = refl;
  slot = λ i p. inl (ground arith, λ j q. refl);
  apart = λ i j p q ne set. absurd (set (ground arith));
}

map_bootstrap_lem_example :
    (s' : Build) × (map_bootstrap 0 0xC020_1000 0x20_1000 1 empty_directory ≡ ok s')
    × IsBuilt 0 (update (λ _. 0) (0xC020_1000 / 4096) (entry_of 0x20_1000 1)) s'
    × Budget 0 (0xC020_1000 / 2 ^ 22) 2 s'
map_bootstrap_lem_example =
    map_bootstrap_lem 0 2 0xC020_1000 0x20_1000 1 (λ _. 0) empty_directory empty-IsBuilt
      (omega arith) (omega arith) (omega arith) supply-HasFrames
