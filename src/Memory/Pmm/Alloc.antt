-- ===== src/Memory/Pmm/Alloc.antt =====
-- `pmm_alloc_frame` and `pmm_free_frame` against the set of frames in use.
use munux.Common.{
  ℕ, zero, suc, ◌+◌, ◌-◌, ◌*◌, ◌/◌, ◌%◌, ◌^◌, ◌<◌, ◌≡◌, ◌≢◌, refl, sym, ◌∙◌, ◌⊎◌, inl, inr, false,
  ◌==◌, ltb, if◌then◌else◌, arith, Bool-cases,
}
use munux.Common.Word.{u32_max}
use munux.Common.Memory.{Memory, update}
use munux.Common.Bits.{bit, bit-or_pow, bit-and_not_pow, or_pow-lt, and-le}
use munux.Memory.Pmm.{
  Pmm, page_size, find_free_frame, mark_frame_used, mark_frame_free, alloc_frame, free_frame,
}
use munux.Memory.Pmm.Find.{used, tracked, IsValid, tracked_small, find_free_frame_lem}

-- A store to the word of frame `f` that gives bit `f % 32` the value `v` and keeps the others
-- changes exactly frame `f`.
used-update :
    (m : Memory) (f word v g : ℕ)
    → ((j : ℕ) → j < 32 → bit word j ≡ (if j == f % 32 then v else bit (m (f / 32)) j))
    → used (update m (f / 32) word) g ≡ (if g == f then v else used m g)
unfolding used
used-update m f word v g h = elim (Bool-cases (g / 32 == f / 32)) [
  | inl same ↦ rw (same, h (g % 32) (omega arith)) (ground arith)
  | inr other ↦ rw other (ground arith)
]

pub used-mark_used :
    (s : Pmm) (f g : ℕ)
    → used (mark_frame_used f s).bitmap g ≡ (if g == f then 1 else used s.bitmap g)
unfolding mark_frame_used
used-mark_used s f g =
    used-update s.bitmap f _ 1 g (λ j h. bit-or_pow (s.bitmap (f / 32)) (f % 32) j)

pub used-mark_free :
    (s : Pmm) (f g : ℕ)
    → s.bitmap (f / 32) < 2 ^ 32
    → used (mark_frame_free f s).bitmap g ≡ (if g == f then 0 else used s.bitmap g)
unfolding mark_frame_free
used-mark_free s f g small =
    used-update s.bitmap f _ 0 g
      (λ j h. bit-and_not_pow 32 (s.bitmap (f / 32)) (f % 32) j (omega arith) small)

-- What a call of `pmm_alloc_frame` does: it takes the lowest free frame, or there is none.
abbrev pub Allocates : Pmm → ℕ → Pmm → Type 0
Allocates s addr s' =
    ((addr ≡ 0) × (s' ≡ s) × ((f : ℕ) → f < tracked s → used s.bitmap f ≡ 1))
    ⊎ ((f : ℕ) × (addr ≡ f * page_size)
        × (0 < f)
        × (f < tracked s)
        × (used s.bitmap f ≡ 0)
        × ((g : ℕ) → g < f → used s.bitmap g ≡ 1)
        × ((g : ℕ) → used s'.bitmap g ≡ (if g == f then 1 else used s.bitmap g))
        × (s'.used_frames ≡ (s.used_frames + 1) % 2 ^ 32)
        × (s'.total_frames ≡ s.total_frames))

-- In a valid state `pmm_alloc_frame` marks the lowest frame that is not in use, counts it and
-- returns its address; no other frame changes. It returns 0, and changes nothing, exactly when
-- every frame of the bitmap is in use.
pub alloc_frame_lem : {s : Pmm} → IsValid s → let (addr, s') = alloc_frame s in Allocates s addr s'
unfolding alloc_frame
alloc_frame_lem {s} v = elim (find_free_frame_lem v) [
  | inl (e, all) ↦ rw e (inl (refl, refl, λ f h. all f (omega arith) h))
  | inr (lo, up, free, all) ↦
      let f = find_free_frame s in
      let bound : f < 2 ^ 20 = omega (arith, tracked_small v) in
      let found : (f == u32_max) ≡ false = ground arith in
      rw found (
        inr (
          f,
          omega arith,
          not_zero f free,
          up,
          free,
          λ g h. all g (omega arith) h,
          λ g. used-mark_used s f g,
          used_frames-mark f,
          total_frames-mark f,
        ))
]
  where
    not_zero : (f : ℕ) → used s.bitmap f ≡ 0 → 0 < f
    not_zero zero e = absurd (omega (arith, v.zero_used))
    not_zero (suc f) e = omega arith

    used_frames-mark :
        (f : ℕ) → ((mark_frame_used f s).used_frames + 1) % 2 ^ 32 ≡ (s.used_frames + 1) % 2 ^ 32
    used_frames-mark f = unfold mark_frame_used in refl

    total_frames-mark : (f : ℕ) → (mark_frame_used f s).total_frames ≡ s.total_frames
    total_frames-mark f = unfold mark_frame_used in refl

mark_used-IsValid : {s : Pmm} (f : ℕ) → IsValid s → IsValid (mark_frame_used f s)
unfolding mark_frame_used
mark_used-IsValid {s} f v = record {
  words = λ w. ground (
    arith,
    v.words w,
    or_pow-lt 32 (s.bitmap (f / 32)) (f % 32) (v.words (f / 32)) (omega arith),
  );
  frames = v.frames;
  zero_used = used-mark_used s f 0 ∙ ground (arith, v.zero_used);
}

-- The valid state stays valid: every word keeps 32 bits and frame 0 stays in use.
pub alloc_frame-IsValid : {s : Pmm} → IsValid s → IsValid (alloc_frame s).1
unfolding alloc_frame
alloc_frame-IsValid {s} v = elim (Bool-cases (find_free_frame s == u32_max)) [
  | inl e ↦ rw e v
  | inr e ↦ rw e (keep (mark_used-IsValid (find_free_frame s) v))
]
  where
    keep : {t : Pmm} → IsValid t → IsValid (record t { used_frames = (t.used_frames + 1) % 2 ^ 32 })
    keep w = record { words = w.words; frames = w.frames; zero_used = w.zero_used }

-- Freeing the frame that holds `addr` clears its bit and no other, and lowers the count unless it
-- is 0 already; the frame need not have been in use.
pub free_frame_lem :
    {s : Pmm} (addr : ℕ)
    → IsValid s
    → ((g : ℕ)
        → used (free_frame addr s).bitmap g
          ≡ (if g == addr / page_size then 0 else used s.bitmap g))
      × ((free_frame addr s).used_frames ≡ s.used_frames - 1)
      × ((free_frame addr s).total_frames ≡ s.total_frames)
unfolding free_frame
free_frame_lem {s} addr v =
    elim (Bool-cases (ltb 0 (mark_frame_free (addr / 4096) s).used_frames)) [
      | inl e ↦ rw e (λ g. used-mark_free s _ g (v.words _), counts.0, counts.1)
      | inr e ↦ rw e (λ g. used-mark_free s _ g (v.words _), ground (arith, counts), counts.1)
    ]
  where
    counts :
        ((mark_frame_free (addr / 4096) s).used_frames - 1 ≡ s.used_frames - 1)
        × ((mark_frame_free (addr / 4096) s).total_frames ≡ s.total_frames)
    counts = unfold mark_frame_free in (refl, refl)

mark_free-IsValid : {s : Pmm} (f : ℕ) → f ≢ 0 → IsValid s → IsValid (mark_frame_free f s)
unfolding mark_frame_free
mark_free-IsValid {s} f ne v = record {
  words = λ w. ground (
    arith,
    v.words w,
    v.words (f / 32),
    and-le (s.bitmap (f / 32)) (s.bitmap (f / 32)) (0xffff_ffff - 2 ^ (f % 32)) (omega arith),
  );
  frames = v.frames;
  zero_used = used-mark_free s f 0 (v.words (f / 32)) ∙ ground (arith, v.zero_used);
}

-- Freeing any frame but frame 0 keeps the state valid.
pub free_frame-IsValid :
    {s : Pmm} (addr : ℕ) → addr / page_size ≢ 0 → IsValid s → IsValid (free_frame addr s)
unfolding free_frame
free_frame-IsValid {s} addr ne v =
    elim (Bool-cases (ltb 0 (mark_frame_free (addr / 4096) s).used_frames)) [
      | inl e ↦ rw e (record { words = w.words; frames = w.frames; zero_used = w.zero_used })
      | inr e ↦ rw e w
    ]
  where
    w : IsValid (mark_frame_free (addr / 4096) s)
    w = mark_free-IsValid (addr / 4096) ne v

-- The address that `pmm_alloc_frame` returns depends only on which frames are in use.
pub alloc_frame-cong :
    {s t : Pmm}
    → IsValid s
    → IsValid t
    → tracked t ≡ tracked s
    → ((g : ℕ) → used t.bitmap g ≡ used s.bitmap g)
    → (alloc_frame t).0 ≡ (alloc_frame s).0
alloc_frame-cong {s} {t} v w size same = elim (alloc_frame_lem v) [
  | inl (zero_s, _, all_s) ↦ elim (alloc_frame_lem w) [
    | inl (zero_t, _, _) ↦ zero_t ∙ sym zero_s
    | inr (f, _, _, up, free, _, _, _, _) ↦ absurd (ground (arith, same f, all_s f (omega arith)))
  ]
  | inr (f, addr, _, up, free, low, _, _, _) ↦ elim (alloc_frame_lem w) [
    | inl (_, _, all) ↦ absurd (ground (arith, same f, all f (omega arith)))
    | inr (g, addr', _, up', free', low', _, _, _) ↦ ground (arith, same f, same g, low g, low' f)
  ]
]
