-- ===== src/Tests/Frames.antt =====
-- The frame allocator at concrete inputs: a bitmap whose frames 4 to 7 are free.
use zkrnl.Base.{
  ℕ, ◌+◌, ◌-◌, ◌%◌, ◌≡◌, refl, [], ◌∷◌, ok, panic, double_free, arith, ◌==◌, if◌then◌else◌, update,
  ◌⊎◌, ◌>>=◌, ◌≤◌, inl, none, some,
}
use zkrnl.Utils.Bits.{clipped_bit_range_mask}
use zkrnl.Memory.Frame.Bitmap.{
  masks, collect_masks, next_mask, and_not_words, new_run, frame_count, FrameRun, FrameBitmap,
  set_occupied,
}
use zkrnl.Memory.Frame.Bitmap.Any.{NoneFree, SomeFree}
use zkrnl.Memory.Frame.Alloc.{allocate, free, scan_for_run, find_free_run, scan, is_free}
use zkrnl.Memory.Frame.Alloc.Scan.{NoRun}
use zkrnl.Memory.Frame.Alloc.Allocate.{IsValid, Grants, granted, allocate_lem}
use zkrnl.Memory.Frame.Alloc.Books.{Books, Reach-Books}
use zkrnl.Memory.Frame.Alloc.Free.{Releases, free_lem, free-allocate}
use zkrnl.Memory.Frame.Alloc.Count.{free_frames, held_frames, Reach-free_frames, Reach-allocate}
use zkrnl.Memory.Frame.Alloc.Order.{free_comm}
use zkrnl.Word.Bit.{bit-zero, bit-mod-pow}
use zkrnl.Memory.Frame.Alloc.Ownership.{Takes, Step, Reach, Sound, Reach-Sound}

abbrev sample : FrameBitmap
sample = record { bitmap = λ i. if i == 0 then 0xF0 else 0; search_hint = 0 }

sample-IsValid : IsValid sample
sample-IsValid = record { hint_in_range = omega arith; words = λ i. ground arith }

allocate_lem_example :
    ((allocate sample 2 ≡ ok (none, sample)) × NoRun sample.bitmap 2 0 (frame_count + 1 - 2))
    ⊎ ((start : ℕ) × (b' : FrameBitmap) × (allocate sample 2 ≡ ok (granted start 2, b'))
        × Grants sample 2 start b')
allocate_lem_example = allocate_lem sample 2 sample-IsValid (omega arith)

abbrev run : FrameRun
run = record { start = 8; len = 2 }

free_lem_example :
    (NoneFree sample.bitmap 8 (8 + 2)
      × ((b' : FrameBitmap) × (free sample run ≡ ok b') × Releases sample run b'))
    ⊎ (SomeFree sample.bitmap 8 (8 + 2) × (free sample run ≡ panic double_free))
free_lem_example = free_lem sample run sample-IsValid (omega arith)

-- The first allocation of one frame.
abbrev one : FrameRun
one = record { start = 4; len = 1 }

abbrev after_one : FrameBitmap
after_one = record { bitmap = update (λ i. if i == 0 then 0xF0 else 0) 0 0xE0; search_hint = 0 }

allocate-one : allocate sample 1 ≡ ok (some one, after_one)
unfolding allocate find_free_run scan_for_run scan is_free set_occupied masks collect_masks
    next_mask and_not_words clipped_bit_range_mask new_run
allocate-one = refl

free-allocate_example :
    (b'' : FrameBitmap) × (free after_one one ≡ ok b'') × (b''.bitmap ≡ sample.bitmap)
free-allocate_example = free-allocate sample 1 sample-IsValid (omega arith) allocate-one

one_step : Reach sample [] after_one (one ∷ [])
one_step = Reach.step Reach.start (Step.granted 1 (omega arith) allocate-one)

Reach-Sound_example : Sound after_one (one ∷ [])
Reach-Sound_example = Reach-Sound sample-IsValid one_step

Reach-Books_example : Books sample after_one (one ∷ []) 4
Reach-Books_example = Reach-Books sample-IsValid one_step 4

abbrev other_run : FrameRun
other_run = record { start = 12; len = 3 }

sample-NoneFree : (lo hi : ℕ) → 8 ≤ lo → NoneFree sample.bitmap lo hi
sample-NoneFree lo hi above f p q = ground (arith, bit-zero (f % 32), bit-mod-pow 8 240 (f % 32))

free_comm_example :
    (d : FrameBitmap) × ((free sample run >>= λ c. free c other_run) ≡ ok d)
    × ((free sample other_run >>= λ c. free c run) ≡ ok d)
free_comm_example =
    free_comm sample run other_run sample-IsValid (omega arith) (omega arith)
      (sample-NoneFree 8 10 (omega arith)) (sample-NoneFree 12 15 (omega arith)) (inl (omega arith))

Reach-free_frames_example : free_frames after_one + held_frames (one ∷ []) ≡ free_frames sample
Reach-free_frames_example = Reach-free_frames sample-IsValid one_step

Reach-allocate_example :
    (c' : FrameBitmap) × (free after_one one ≡ ok c')
    × ((start : ℕ) × (c'' : FrameBitmap) × (allocate c' 1 ≡ ok (granted start 1, c''))
        × Grants c' 1 start c'')
Reach-allocate_example =
    Reach-allocate one 1 sample-IsValid one_step Takes.here (omega arith) (omega arith)
