-- ===== src/Memory/Paging/Confined/Writes.antt =====
-- src/memory/paging.rs: the helpers of `init` on any bitmap, and what a write to physical memory leaves.
use zkrnl.Base.{
  ℕ, ◌+◌, ◌*◌, ◌^◌, ◌<◌, ◌≡◌, ◌≢◌, refl, sym, ap, ◌∙◌, out_of_frames, above_identity_map, arith,
  ltb, ◌==◌, if◌then◌else◌, inl, inr, Ends, returns, panics, >>=-Ends, require-Halts,
  mul_usize-Halts,
}
use mathlib.Core.Path.{subst}
use zkrnl.Memory.Address.{FrameNumber, base_addr}
use zkrnl.Memory.Frame.Bitmap.{FrameBitmap}
use zkrnl.Memory.Frame.Bitmap.Update.{frame_bit}
use zkrnl.Memory.Frame.Alloc.{allocate_one}
use zkrnl.Memory.Frame.Alloc.Allocate.{IsValid, allocate_lem}
use zkrnl.Memory.Paging.Flags.{PageFlags, kernel_rw}
use zkrnl.Memory.Paging.Entry.{new, for_table}
use zkrnl.Memory.Paging.Entry.Pack.{for_table-eq}
use zkrnl.Memory.Paging.Directory.{write_entry, alloc_frame, bootstrap_frame_ptr, zero_frame}

-- One allocation of a frame: it was free, and is the only one whose bit changes.
pub record Taken (b : FrameBitmap) (frame : ℕ) (b' : FrameBitmap) : Type 0 where
  pub in_range : frame < 2 ^ 20
  pub was_free : frame_bit b.bitmap frame ≡ 1
  pub bits : (f : ℕ) → frame_bit b'.bitmap f ≡ (if f == frame then 0 else frame_bit b.bitmap f)
  pub valid : IsValid b'

pub alloc_frame-Ends :
    (b : FrameBitmap)
    → IsValid b
    → Ends (λ (t : FrameNumber × FrameBitmap). Taken b t.0 t.1) (alloc_frame b)
unfolding alloc_frame allocate_one
alloc_frame-Ends b v = elim (allocate_lem b 1 v (omega arith)) [
  | inl (e, absent) ↦ rw e (panics out_of_frames λ e. cc)
  | inr (start, b', e, grants) ↦ rw e (
      returns (start, b')
        (record {
          in_range = omega (arith, grants.in_range);
          was_free = grants.was_free start (omega arith) (omega arith);
          bits = λ f. grants.occupied f ∙ ground arith;
          valid = grants.valid;
        }))
]

pub bootstrap_frame_ptr-Ends :
    (frame : FrameNumber) → Ends (λ p. p ≡ frame) (bootstrap_frame_ptr frame)
unfolding bootstrap_frame_ptr base_addr
bootstrap_frame_ptr-Ends frame = >>=-Ends (mul_usize-Halts frame 4096) λ phys _.
    >>=-Ends (require-Halts (ltb phys (2 ^ 22)) above_identity_map λ e. cc)
      λ _ _. returns frame refl

-- Memory with one frame cleared.
abbrev pub cleared : (ℕ → ℕ → ℕ) → ℕ → ℕ → ℕ → ℕ
cleared memory frame f = if f == frame then (λ _. 0) else memory f

pub zero_frame-Ends :
    (memory : ℕ → ℕ → ℕ) (frame : FrameNumber)
    → Ends (λ memory'. memory' ≡ cleared memory frame) (zero_frame memory frame)
unfolding zero_frame
zero_frame-Ends memory frame =
    >>=-Ends (bootstrap_frame_ptr-Ends frame) λ ptr same. returns _ (ap (cleared memory) same)

pub for_table-Ends :
    (frame : FrameNumber)
    → frame < 2 ^ 20
    → Ends (λ e. e ≡ frame * 4096 + 3) (for_table frame kernel_rw)
unfolding kernel_rw
for_table-Ends frame h =
    subst (Ends _) (sym (for_table-eq frame 3 h (omega arith))) (returns _ refl)

pub new-Ends : (frame : FrameNumber) (flags : PageFlags) → Ends (λ _. Unit {0}) (new frame flags)
unfolding new base_addr
new-Ends frame flags = >>=-Ends (mul_usize-Halts frame 4096) λ base _. returns _ tt

pub linked_word :
    (memory : ℕ → ℕ → ℕ) (pd t index e i : ℕ)
    → t ≢ pd
    → write_entry (cleared memory t) pd index e pd i ≡ (if i == index then e else memory pd i)
unfolding write_entry
linked_word memory pd t index e i other = ground arith

pub written_frame :
    (memory : ℕ → ℕ → ℕ) (frame index e f : ℕ)
    → f ≢ frame
    → write_entry memory frame index e f ≡ memory f
unfolding write_entry
written_frame memory frame index e f other = ground arith

pub cleared_frame : (memory : ℕ → ℕ → ℕ) (t f : ℕ) → f ≢ t → cleared memory t f ≡ memory f
cleared_frame memory t f other = ground arith
