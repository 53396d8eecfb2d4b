-- ===== src/Memory/Paging/Shared.antt =====
-- src/memory/paging.rs: the page tables of `init` among the frames that others use.
use zkrnl.Base.{ℕ, ◌/◌, ◌^◌, ◌<◌, ◌≡◌, ok, arith, inl, inr, ap, sym, ◌∙◌, of_ok}
use zkrnl.Memory.Layout.{Layout, IsLinked}
use zkrnl.Memory.Frame.Bitmap.Update.{frame_bit}
use zkrnl.Memory.Frame.Alloc.Allocate.{IsValid}
use zkrnl.Memory.Paging.Translate.{translate}
use zkrnl.Memory.Paging.Directory.{Build, init}
use zkrnl.Memory.Paging.Directory.Supply.{HasFrames}
use zkrnl.Memory.Paging.Directory.Init.{IsSmall}
use zkrnl.Memory.Paging.Directory.Entries.{init-IsBuilt}
use zkrnl.Memory.Paging.Directory.Invariant.{IsBuilt, IsSlot}
use zkrnl.Memory.Paging.Directory.Loaded.{kernel_view, IsBuilt-view}
use zkrnl.Memory.Paging.Confined.{init_within}

-- Memory that holds what it held in every occupied frame.
abbrev pub Spares : Build → (ℕ → ℕ → ℕ) → Type 0
Spares s memory = (f : ℕ) → frame_bit s.allocator.bitmap f ≡ 0 → memory f ≡ s.memory f

module _ (pd : ℕ) (pte : ℕ → ℕ) (s : Build) (b : IsBuilt pd pte s) (memory : ℕ → ℕ → ℕ)
    (spares : Spares s memory) where
  abbrev after : Build
  after = record s { memory = memory }

  same_entry : (i : ℕ) → memory pd i ≡ s.memory pd i
  same_entry i = ap (λ words. words i) (spares pd b.used)

  Spares-IsSlot : (i : ℕ) → i < 1023 → IsSlot pd pte after i
  Spares-IsSlot i p = elim (b.slot i p) [
    | inl (absent, none_mapped) ↦ inl (same_entry i ∙ absent, none_mapped)
    | inr (t, low, ne, used, at, words) ↦ inr (
      t,
      low,
      ne,
      used,
      same_entry i ∙ at,
      λ j l. ap (λ table. table j) (spares t used) ∙ words j l,
    )
  ]

  Spares-IsBuilt : IsBuilt pd pte after
  Spares-IsBuilt = record {
    low = b.low;
    used = b.used;
    self = same_entry 1023 ∙ b.self;
    slot = Spares-IsSlot;
    apart = λ i j p q ne set same.
        b.apart i j p q ne (λ none. set (same_entry i ∙ none))
          (sym (same_entry i) ∙ same ∙ same_entry j);
  }

-- `init` with its frames: the directory that it loads implements the kernel's view on any memory that
-- keeps the occupied frames, and the frames that are free at the end were free before.
pub init-Spares :
    (l : Layout) (s : Build)
    → IsLinked l
    → IsSmall l
    → HasFrames s.allocator 3
    → (pd : ℕ) × (s' : Build) × (init l s ≡ ok (pd, s'))
      × IsValid s'.allocator
      × ((f : ℕ) → frame_bit s'.allocator.bitmap f ≡ 1 → frame_bit s.allocator.bitmap f ≡ 1)
      × ((memory : ℕ → ℕ → ℕ)
          → Spares s' memory
          → (v : ℕ) → v / 2 ^ 22 < 1023
          → translate (memory pd) memory v ≡ kernel_view l v)
init-Spares l s linked small frames =
    let (pd, s', e, built) = init-IsBuilt l s linked small frames in
    let c = of_ok (rw e at (init_within l s linked (omega arith) frames.0)) in
    (
      pd,
      s',
      e,
      c.valid,
      c.only,
      λ memory spares. IsBuilt-view l pd _ linked (Spares-IsBuilt pd _ s' built memory spares),
    )
