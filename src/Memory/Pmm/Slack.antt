-- ===== src/Memory/Pmm/Slack.antt =====
-- The frames of the last bitmap word that lie beyond the end of memory.
use munux.Common.{ℕ, ◌+◌, ◌-◌, ◌%◌, ◌^◌, ◌≤◌, ◌<◌, ◌≡◌, ◌≢◌, inl, inr, ◌==◌, arith, Bool-cases}
use munux.Memory.Pmm.{Pmm, page_size, alloc_frame, get_total_memory, get_free_memory}
use munux.Memory.Pmm.Find.{used, tracked, IsValid, bitmap_words_eq}
use munux.Memory.Pmm.Alloc.{alloc_frame_lem}

-- When the number of frames is a multiple of 32, the frame that `pmm_alloc_frame` returns lies
-- inside the memory whose size was given to `pmm_init`.
pub alloc_frame_within :
    {s : Pmm}
    → IsValid s
    → s.total_frames % 32 ≡ 0
    → (alloc_frame s).0 ≢ 0
    → (alloc_frame s).0 + page_size ≤ get_total_memory s
unfolding get_total_memory tracked
alloc_frame_within {s} v whole got = elim (alloc_frame_lem v) [
  | inl (none_left, _, _) ↦ absurd (got none_left)
  | inr (f, addr, _, up, _, _, _, _, _) ↦ omega (arith, v.frames, bitmap_words_eq v)
]

-- When it is not, and every frame of the memory is in use but the next one is not, the call hands
-- out the frame that begins at the end of memory, and `pmm_get_free_memory` wraps.
pub alloc_frame_beyond :
    {s : Pmm}
    → IsValid s
    → s.total_frames % 32 ≢ 0
    → ((f : ℕ) → f < s.total_frames → used s.bitmap f ≡ 1)
    → used s.bitmap s.total_frames ≡ 0
    → s.used_frames ≡ s.total_frames
    → ((alloc_frame s).0 ≡ get_total_memory s)
      × (get_free_memory (alloc_frame s).1 ≡ 2 ^ 32 - page_size)
unfolding get_total_memory get_free_memory tracked
alloc_frame_beyond {s} v ragged full free count = elim (alloc_frame_lem v) [
  | inl (_, _, all) ↦
      absurd (omega (arith, free, all s.total_frames (omega (arith, v.frames, bitmap_words_eq v))))
  | inr (f, addr, _, _, hole, low, _, raised, total) ↦
      let first : f ≡ s.total_frames = elim (Bool-cases (f == s.total_frames)) [
        | inl e ↦ ground arith
        | inr ne ↦ absurd (ground (arith, full f, low s.total_frames))
      ] in
      (omega (arith, v.frames), rw (total, raised, count) (omega (arith, v.frames)))
]
