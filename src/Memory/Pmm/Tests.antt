-- ===== src/Memory/Pmm/Tests.antt =====
-- Runs of the frame allocator, and its theorems at concrete states.
use munux.Common.{ℕ, zero, suc, ◌<◌, ◌≡◌, ◌≢◌, refl, ◌==◌, if◌then◌else◌, arith}
use munux.Common.Bits.{bit}
use munux.Memory.Pmm.{
  Pmm, bitmap_words, find_bit, find_word, find_free_frame, mark_frame_used, fill_words, init,
  alloc_frame, free_frame, get_total_memory, get_free_memory,
}
use munux.Memory.Pmm.Find.{used, tracked, IsValid}
use munux.Memory.Pmm.Alloc.{Allocates, alloc_frame_lem}
use munux.Memory.Pmm.Count.{count_used, Counted, free_frame-alloc_frame}
use munux.Memory.Pmm.Init.{init_lem, init-Counted}
use munux.Memory.Pmm.Slack.{alloc_frame_beyond}

-- Memory of 2 MiB and one frame, whatever it held before.
abbrev booted : Pmm
booted = init 0x20_1000 (λ _. 7)

-- The last frame of that memory, then the frame behind it.
booted_allocs :
    ((alloc_frame booted).0 ≡ 0x20_0000) × ((alloc_frame (alloc_frame booted).1).0 ≡ 0x20_1000)
unfolding init bitmap_words fill_words alloc_frame find_free_frame mark_frame_used
booted_allocs = (refl, refl)

booted-IsValid : IsValid booted
booted-IsValid = (init_lem 0x20_1000 (λ _. 7) (omega arith) (λ _. omega arith)).0

booted-Counted : Counted booted
booted-Counted = init-Counted 0x20_1000 (λ _. 7) (omega arith) (λ _. omega arith) (omega arith)

-- 64 frames, of which frame 0 is in use.
abbrev small : Pmm
small = record { bitmap = λ w. if w == 0 then 1 else 0; total_frames = 64; used_frames = 1 }

small-IsValid : IsValid small
unfolding used bit
small-IsValid = record { words = λ w. ground arith; frames = omega arith; zero_used = refl }

small-Counted : Counted small
unfolding count_used tracked bitmap_words used bit
small-Counted = refl

small_allocs : (alloc_frame small).0 ≢ 0
small_allocs =
    let e : (alloc_frame small).0 ≡ 4096 =
      unfold alloc_frame find_free_frame find_word find_bit bitmap_words in refl in
    omega (arith, e)

-- One frame of memory, in use.
abbrev ragged : Pmm
ragged = record small { total_frames = 1 }

ragged-IsValid : IsValid ragged
unfolding used bit
ragged-IsValid = record { words = λ w. ground arith; frames = omega arith; zero_used = refl }

alloc_frame_lem_example : Allocates small (alloc_frame small).0 (alloc_frame small).1
alloc_frame_lem_example = alloc_frame_lem small-IsValid

free_frame-alloc_frame_example :
    let (addr, s) = alloc_frame small in
    ((g : ℕ) → used (free_frame addr s).bitmap g ≡ used small.bitmap g)
    × ((free_frame addr s).used_frames ≡ 1)
    × ((alloc_frame (free_frame addr s)).0 ≡ addr)
free_frame-alloc_frame_example = free_frame-alloc_frame small-IsValid small-Counted small_allocs

alloc_frame_beyond_example :
    ((alloc_frame ragged).0 ≡ get_total_memory ragged)
    × (get_free_memory (alloc_frame ragged).1 ≡ 0xffff_f000)
alloc_frame_beyond_example =
    alloc_frame_beyond ragged-IsValid (omega arith) only_zero (unfold used bit in refl) refl
  where
    only_zero : (f : ℕ) → f < 1 → used ragged.bitmap f ≡ 1
    only_zero zero h = ragged-IsValid.zero_used
    only_zero (suc f) h = absurd (omega arith)
