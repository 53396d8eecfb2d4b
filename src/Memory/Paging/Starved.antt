-- ===== src/Memory/Paging/Starved.antt =====
-- src/memory/paging.rs: `init` without a free frame that the bootstrap map reaches.
use zkrnl.Base.{
  ℕ, ◌%◌, ◌/◌, ◌≤◌, ◌<◌, ◌≡◌, ◌⊎◌, inl, inr, panic, ok, out_of_frames, above_identity_map, arith,
  lt_or_le,
}
use zkrnl.Word.Bit.{bit-le-one}
use zkrnl.Memory.Address.{base_addr}
use zkrnl.Memory.Layout.{Layout}
use zkrnl.Memory.Frame.Bitmap.{FrameBitmap, frame_count}
use zkrnl.Memory.Frame.Bitmap.Update.{frame_bit}
use zkrnl.Memory.Frame.Alloc.{allocate_one}
use zkrnl.Memory.Frame.Alloc.Allocate.{IsValid, allocate_lem}
use zkrnl.Memory.Frame.Alloc.Scan.{NoRun}
use zkrnl.Memory.Paging.Directory.{Build, alloc_frame, bootstrap_frame_ptr, zero_frame, init}

NoRun-one :
    (words : ℕ → ℕ) (f : ℕ) → NoRun words 1 0 frame_count → f < frame_count → frame_bit words f ≡ 0
NoRun-one words f none_free inside = elim (lt_or_le (frame_bit words f) 1) [
  | inl clear ↦ omega arith
  | inr set ↦ absurd (
      none_free f (omega arith) inside λ g p q.
        let same : g ≡ f = omega arith in
        let one : frame_bit words f ≡ 1 = omega (arith, bit-le-one (words (f / 32)) (f % 32)) in
        rw same one)
]

-- The outcome of the allocation of a frame, by the frames that are free.
alloc_frame_lem :
    (b : FrameBitmap)
    → IsValid b
    → (((f : ℕ) → f < frame_count → frame_bit b.bitmap f ≡ 0)
        × (alloc_frame b ≡ panic out_of_frames))
      ⊎ ((f : ℕ) × (b' : FrameBitmap) × (f < frame_count)
          × (frame_bit b.bitmap f ≡ 1)
          × (alloc_frame b ≡ ok (f, b')))
unfolding alloc_frame allocate_one
alloc_frame_lem b v = elim (allocate_lem b 1 v (omega arith)) [
  | inl (e, absent) ↦ inl (λ f inside. NoRun-one b.bitmap f absent inside, rw e)
  | inr (start, b', e, grants) ↦ inr (
    start,
    b',
    omega (arith, grants.in_range),
    grants.was_free start (omega arith) (omega arith),
    rw e,
  )
]

bootstrap_frame_ptr-high :
    (f : ℕ) → 1024 ≤ f → f < frame_count → bootstrap_frame_ptr f ≡ panic above_identity_map
unfolding bootstrap_frame_ptr base_addr
bootstrap_frame_ptr-high f high inside = ground arith

init-out_of_frames :
    (l : Layout) (s : Build)
    → alloc_frame s.allocator ≡ panic out_of_frames
    → init l s ≡ panic out_of_frames
unfolding init
init-out_of_frames l s e = rw (init, e)

init-high :
    (l : Layout) (s : Build) {f : ℕ} {b : FrameBitmap}
    → alloc_frame s.allocator ≡ ok (f, b)
    → bootstrap_frame_ptr f ≡ panic above_identity_map
    → init l s ≡ panic above_identity_map
unfolding init zero_frame
init-high l s e high = rw (init, e, zero_frame, high)

-- On a valid allocator with no free frame in the identity-mapped first 4 MiB, `init` panics: out of frames
-- if no frame is free at all, and otherwise with the assertion that its frame lies in the identity map.
pub init-panic :
    (l : Layout) (s : Build)
    → IsValid s.allocator
    → ((f : ℕ) → f < 1024 → frame_bit s.allocator.bitmap f ≡ 0)
    → (((f : ℕ) → f < frame_count → frame_bit s.allocator.bitmap f ≡ 0)
        × (init l s ≡ panic out_of_frames))
      ⊎ ((f : ℕ) × (1024 ≤ f)
          × (f < frame_count)
          × (frame_bit s.allocator.bitmap f ≡ 1)
          × (init l s ≡ panic above_identity_map))
init-panic l s v low = elim (alloc_frame_lem s.allocator v) [
  | inl (none_free, e) ↦ inl (none_free, init-out_of_frames l s e)
  | inr (f, b, inside, free, e) ↦ elim (lt_or_le f 1024) [
    | inl below ↦ absurd (omega (arith, low f below))
    | inr high ↦
        inr (f, high, inside, free, init-high l s e (bootstrap_frame_ptr-high f high inside))
  ]
]
