-- ===== src/Memory/Pmm/Count.antt =====
-- `used_frames` counts the set bits of the bitmap.
use munux.Common.{
  ℕ, zero, suc, ◌+◌, ◌/◌, ◌≤◌, ◌<◌, ◌≡◌, ◌≢◌, ◌∙◌, inl, inr, ◌==◌, ltb, if◌then◌else◌, arith,
}
use munux.Common.Memory.{Memory}
use munux.Memory.Pmm.{Pmm, page_size, bitmap_words, alloc_frame, free_frame}
use munux.Memory.Pmm.Find.{used, used_range, tracked, IsValid, tracked_small}
use munux.Memory.Pmm.Alloc.{
  alloc_frame_lem, alloc_frame-IsValid, free_frame_lem, free_frame-IsValid, alloc_frame-cong,
}

-- How many of the frames below `n` are in use.
unfoldable pub count_used : Memory → ℕ → ℕ
count_used m zero = 0
count_used m (suc n) = count_used m n + used m n

-- The second invariant: the counter agrees with the bitmap.
abbrev pub Counted : Pmm → Type 0
Counted s = s.used_frames ≡ count_used s.bitmap (tracked s)

count_used-set :
    (m m' : Memory) (f n : ℕ)
    → ((g : ℕ) → used m' g ≡ (if g == f then 1 else used m g))
    → used m f ≡ 0
    → count_used m' n ≡ count_used m n + (if ltb f n then 1 else 0)
unfolding count_used
count_used-set m m' f zero h e = ground arith
count_used-set m m' f (suc n) h e = ground (arith, h n, count_used-set m m' f n h e)

count_used-clear :
    (m m' : Memory) (f n : ℕ)
    → ((g : ℕ) → used m' g ≡ (if g == f then 0 else used m g))
    → used m f ≡ 1
    → count_used m n ≡ count_used m' n + (if ltb f n then 1 else 0)
unfolding count_used
count_used-clear m m' f zero h e = ground arith
count_used-clear m m' f (suc n) h e = ground (arith, h n, count_used-clear m m' f n h e)

pub tracked-cong : (s t : Pmm) → t.total_frames ≡ s.total_frames → tracked t ≡ tracked s
unfolding tracked bitmap_words
tracked-cong s t e = rw e

count_used-le : (m : Memory) (n : ℕ) → count_used m n ≤ n
unfolding count_used
count_used-le m zero = omega arith
count_used-le m (suc n) = omega (arith, count_used-le m n, used_range m n)

-- `pmm_alloc_frame` keeps the count: it is raised exactly when a bit is set, and cannot wrap.
pub alloc_frame-Counted : {s : Pmm} → IsValid s → Counted s → Counted (alloc_frame s).1
alloc_frame-Counted {s} v c = elim (alloc_frame_lem v) [
  | inl (_, same, _) ↦ rw same c
  | inr (f, _, _, up, free, _, bits, raised, total) ↦
      rw (tracked-cong s (alloc_frame s).1 total, raised)
        (ground (
          arith,
          c,
          count_used-set s.bitmap (alloc_frame s).1.bitmap f (tracked s) bits free,
          count_used-le s.bitmap (tracked s),
          tracked_small v,
        ))
]

-- `pmm_free_frame` keeps the count when the frame is in use and in the bitmap.
pub free_frame-Counted :
    {s : Pmm} (addr : ℕ)
    → IsValid s
    → Counted s
    → addr / page_size < tracked s
    → used s.bitmap (addr / page_size) ≡ 1
    → Counted (free_frame addr s)
free_frame-Counted {s} addr v c inside busy =
    let (bits, lowered, total) = free_frame_lem addr v in
    rw (tracked-cong s (free_frame addr s) total, lowered)
      (ground (
        arith,
        c,
        count_used-clear s.bitmap (free_frame addr s).bitmap (addr / 4096) (tracked s) bits busy,
      ))

-- Freeing the frame that `pmm_alloc_frame` returned restores the set of frames in use and the
-- count, and the next allocation returns the same frame.
pub free_frame-alloc_frame :
    {s : Pmm}
    → IsValid s
    → Counted s
    → (alloc_frame s).0 ≢ 0
    → let (addr, s') = alloc_frame s in
      let s'' = free_frame addr s' in
      ((g : ℕ) → used s''.bitmap g ≡ used s.bitmap g)
      × (s''.used_frames ≡ s.used_frames)
      × ((alloc_frame s'').0 ≡ addr)
free_frame-alloc_frame {s} v c got = elim (alloc_frame_lem v) [
  | inl (none_left, _, _) ↦ absurd (got none_left)
  | inr (f, addr, pos, up, free, _, bits, raised, total) ↦
      let back : (alloc_frame s).0 / page_size ≡ f = omega arith in
      let (bits', lowered, total') = free_frame_lem (alloc_frame s).0 (alloc_frame-IsValid v) in
      let same = λ (g : ℕ). bits' g ∙ rw back (ground (arith, bits g)) in
      let size : tracked (free_frame (alloc_frame s).0 (alloc_frame s).1) ≡ tracked s =
        tracked-cong s _ (total' ∙ total) in
      (
        same,
        lowered
            ∙ rw raised (ground (arith, c, count_used-le s.bitmap (tracked s), tracked_small v)),
        alloc_frame-cong v (free_frame-IsValid _ (omega arith) (alloc_frame-IsValid v)) size same,
      )
]
