-- ===== src/Memory/Pmm/Find.antt =====
-- The scan of `find_free_frame` returns the lowest clear bit of the bitmap.
use munux.Common.{
  ℕ, zero, suc, ◌+◌, ◌-◌, ◌*◌, ◌/◌, ◌%◌, ◌^◌, ◌≤◌, ◌<◌, ◌≡◌, refl, ◌∙◌, ◌⊎◌, inl, inr, true, false,
  Option, none, some, bit_and, ◌==◌, arith, Bool-cases, ltb, ltb→lt,
}
use munux.Common.Word.{u32_max}
use munux.Common.Memory.{Memory}
use munux.Common.Bits.{bit, bit_range, bit_clear, bit_ones}
use munux.Memory.Pmm.{Pmm, bitmap_words, find_bit, find_word, find_free_frame}

-- Bit `f` of the bitmap: 1 for a frame in use.
unfoldable pub used : Memory → ℕ → ℕ
used m f = bit (m (f / 32)) (f % 32)

pub used_range : (m : Memory) (f : ℕ) → used m f < 2
unfolding used
used_range m f = bit_range (m (f / 32)) (f % 32)

-- The frames that have a bit in the words of the bitmap.
unfoldable pub tracked : Pmm → ℕ
tracked s = 32 * bitmap_words s

-- The invariant of the tables: words of 32 bits, fewer than 2^20 frames, and frame 0 in use.
pub record IsValid (s : Pmm) : Type 0 where
  pub words : (w : ℕ) → s.bitmap w < 2 ^ 32
  pub frames : s.total_frames < 2 ^ 20
  pub zero_used : used s.bitmap 0 ≡ 1

-- What a scan of the bits `lo` to `hi - 1` of a word returns.
abbrev FirstClear : (word lo hi : ℕ) → Option ℕ → Type 0
FirstClear word lo hi none = (k : ℕ) → lo ≤ k → k < hi → bit word k ≡ 1
FirstClear word lo hi (some j) =
    (lo ≤ j) × (j < hi) × (bit word j ≡ 0) × ((k : ℕ) → lo ≤ k → k < j → bit word k ≡ 1)

FirstClear-busy :
    (word lo hi : ℕ) (r : Option ℕ)
    → bit word lo ≡ 1
    → FirstClear word (lo + 1) hi r
    → FirstClear word lo hi r
FirstClear-busy word lo hi none b h = λ k p q. elim (Bool-cases (k == lo)) [
  | inl e ↦ let e' : k ≡ lo = ground arith in rw e' b
  | inr ne ↦ h k (ground arith) q
]
FirstClear-busy word lo hi (some j) b h = (
  omega (arith, h.0),
  h.1,
  h.2,
  λ k p q. elim (Bool-cases (k == lo)) [
    | inl e ↦ let e' : k ≡ lo = ground arith in rw e' b
    | inr ne ↦ h.3 k (ground arith) q
  ],
)

bit_busy : (word k : ℕ) → (bit_and word (2 ^ k) == 0) ≡ false → bit word k ≡ 1
bit_busy word k h = elim (Bool-cases (bit word k == 0)) [
  | inl e ↦
      let e' : bit word k ≡ 0 = ground arith in
      let c : (bit_and word (2 ^ k) == 0) ≡ true = (bit_clear word k).1 e' in cc
  | inr ne ↦ ground (arith, bit_range word k)
]

find_bit_lem : (n lo hi word : ℕ) → lo + n ≡ hi → FirstClear word lo hi (find_bit n lo word)
unfolding find_bit
find_bit_lem zero lo hi word e = λ k h l. absurd (omega arith)
find_bit_lem (suc n) lo hi word e = elim (Bool-cases (bit_and word (2 ^ lo) == 0)) [
  | inl clear ↦
      rw clear
        (omega arith, omega arith, (bit_clear word lo).0 clear, λ k p q. absurd (omega arith))
  | inr busy ↦ rw busy (
      FirstClear-busy word lo hi (find_bit n (lo + 1) word) (bit_busy word lo busy)
        (find_bit_lem n (lo + 1) hi word (omega arith)))
]

-- What a scan of the frames `lo` to `hi - 1` returns.
abbrev pub FirstFree : Memory → (lo hi r : ℕ) → Type 0
FirstFree m lo hi r =
    ((r ≡ u32_max) × ((f : ℕ) → lo ≤ f → f < hi → used m f ≡ 1))
    ⊎ ((lo ≤ r) × (r < hi) × (used m r ≡ 0) × ((f : ℕ) → lo ≤ f → f < r → used m f ≡ 1))

-- Bit `k` of word `w` is frame `32 w + k`.
used_word :
    (m : Memory) (w f : ℕ) → 32 * w ≤ f → f < 32 * (w + 1) → used m f ≡ bit (m w) (f - 32 * w)
unfolding used
used_word m w f p q =
    let e : f / 32 ≡ w = omega arith in let e' : f % 32 ≡ f - 32 * w = omega arith in rw (e, e')

FirstFree-busy :
    (m : Memory) (w hi r : ℕ)
    → ((k : ℕ) → k < 32 → bit (m w) k ≡ 1)
    → FirstFree m (32 * (w + 1)) hi r
    → FirstFree m (32 * w) hi r
FirstFree-busy m w hi r busy h = elim h [
  | inl (e, all) ↦ inl (e, λ f p q. below f p λ p'. all f p' q)
  | inr (lo, up, free, all) ↦ inr (omega arith, up, free, λ f p q. below f p λ p'. all f p' q)
]
  where
    below : (f : ℕ) → 32 * w ≤ f → (32 * (w + 1) ≤ f → used m f ≡ 1) → used m f ≡ 1
    below f p later = elim (Bool-cases (ltb f (32 * (w + 1)))) [
      | inl l ↦
          let l' : f < 32 * (w + 1) = ltb→lt _ _ l in
          rw (used_word m w f p l') (busy _ (omega arith))
      | inr g ↦ later (ground arith)
    ]

full_word : (v k : ℕ) → (v == 0xffff_ffff) ≡ true → k < 32 → bit v k ≡ 1
full_word v k full h = let e : v ≡ 2 ^ 32 - 1 = ground arith in rw e (bit_ones 32 k h)

-- One word of the scan, given what the scan of the later words returns.
word_step :
    (m : Memory) (w end later : ℕ) (r : Option ℕ)
    → w < end
    → end ≤ 2 ^ 27
    → FirstFree m (32 * (w + 1)) (32 * end) later
    → FirstClear (m w) 0 32 r
    → FirstFree m
        (32 * w)
        (32 * end)
        (elim r [ none ↦ later | some b ↦ (w * 32 % 2 ^ 32 + b) % 2 ^ 32 ])
word_step m w end later none l h rest all =
    FirstFree-busy m w (32 * end) later (λ k q. all k (omega arith) q) rest
word_step m w end later (some b) l h rest (lo, up, free, all) =
    let value : (w * 32 % 2 ^ 32 + b) % 2 ^ 32 ≡ 32 * w + b = omega arith in
    let back : 32 * w + b - 32 * w ≡ b = omega arith in
    rw value (
      inr (
        omega arith,
        omega arith,
        used_word m w (32 * w + b) (omega arith) (omega arith) ∙ rw back free,
        λ f p q. used_word m w f p (omega arith) ∙ all (f - 32 * w) (omega arith) (omega arith),
      ))

-- The scan from word `w` over `n` words.
find_word_lem :
    (m : Memory) (n w end : ℕ)
    → w + n ≡ end
    → end ≤ 2 ^ 27
    → FirstFree m (32 * w) (32 * end) (find_word n w m)
unfolding find_word
find_word_lem m zero w end e h = inl (refl, λ f p q. absurd (omega arith))
find_word_lem m (suc n) w end e h =
    let rest = find_word_lem m n (w + 1) end (omega arith) h in
    elim (Bool-cases (m w == 0xffff_ffff)) [
      | inl full ↦ rw full (FirstFree-busy m w (32 * end) _ (λ k q. full_word (m w) k full q) rest)
      | inr other ↦
          rw other (word_step m w end _ _ (omega arith) h rest (find_bit_lem 32 0 32 (m w) refl))
    ]

module _ {s : Pmm} (v : IsValid s) where
  pub bitmap_words_eq : bitmap_words s ≡ (s.total_frames + 31) / 32
  unfolding bitmap_words
  bitmap_words_eq = let h = v.frames in omega arith

  -- `find_free_frame` returns the lowest frame of the bitmap that is not in use, or
  -- FRAMES_NOT_FOUND when all of them are.
  pub find_free_frame_lem : FirstFree s.bitmap 0 (tracked s) (find_free_frame s)
  unfolding find_free_frame tracked
  find_free_frame_lem =
      find_word_lem s.bitmap (bitmap_words s) 0 (bitmap_words s) (omega arith)
        (let h = v.frames in omega (arith, bitmap_words_eq))

  pub tracked_small : tracked s ≤ 2 ^ 20
  unfolding tracked
  tracked_small = let h = v.frames in omega (arith, bitmap_words_eq)

  -- The frames of the last word beyond `total_frames` are tracked too.
  pub tracked_covers : (s.total_frames ≤ tracked s) × (tracked s < s.total_frames + 32)
  unfolding tracked
  tracked_covers =
      let h = v.frames in (omega (arith, bitmap_words_eq), omega (arith, bitmap_words_eq))
