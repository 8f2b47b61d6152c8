-- ===== src/Memory/Pmm/Init.antt =====
-- `pmm_init`: the first 2 MiB are in use and nothing else is.
use munux.Common.{
  ℕ, zero, suc, ◌+◌, ◌-◌, ◌/◌, ◌%◌, ◌^◌, ◌≤◌, ◌<◌, min, ◌≡◌, refl, sym, ◌∙◌, inl, inr, ltb, leb,
  ◌&&◌, if◌then◌else◌, arith, Bool-cases,
}
use munux.Common.Memory.{Memory, update}
use munux.Common.Bits.{bit, bit_ones}
use munux.Memory.Pmm.{bitmap_words, fill_words, init}
use munux.Memory.Pmm.Find.{used, tracked, IsValid, tracked_covers}
use munux.Memory.Pmm.Count.{count_used, Counted}

fill_words_lem :
    (n w v : ℕ) (m : Memory) (q : ℕ)
    → fill_words n w v m q ≡ (if leb w q && ltb q (w + n) then v else m q)
unfolding fill_words
fill_words_lem zero w v m q = ground arith
fill_words_lem (suc n) w v m q = ground (arith, fill_words_lem n (w + 1) v (update m w v) q)

bit_zero : (k : ℕ) → bit 0 k ≡ 0
unfolding bit
bit_zero zero = refl
bit_zero (suc k) = bit_zero k

bitmap_words-init :
    (mem_size : ℕ) (m : Memory)
    → bitmap_words (init mem_size m)
      ≡ bitmap_words (record { bitmap = m; total_frames = mem_size / 4096; used_frames = 0 })
unfolding init bitmap_words
bitmap_words-init mem_size m = refl

-- The words after `pmm_init`: 16 full ones, then zeros as far as the bitmap goes.
bitmap-init :
    (mem_size : ℕ) (m : Memory) (w : ℕ)
    → (init mem_size m).bitmap w ≡ (
        if ltb w 16 then 0xffff_ffff else if ltb w (bitmap_words (init mem_size m)) then 0 else m w)
unfolding init
bitmap-init mem_size m w =
    let words =
      bitmap_words (record { bitmap = m; total_frames = mem_size / 4096; used_frames = 0 }) in
    ground (
      arith,
      fill_words_lem 16 0 0xffff_ffff (fill_words words 0 0 m) w,
      fill_words_lem words 0 0 m w,
      bitmap_words-init mem_size m,
    )

used-init :
    (mem_size : ℕ) (m : Memory) (f : ℕ)
    → f < tracked (init mem_size m)
    → used (init mem_size m).bitmap f ≡ (if ltb f 512 then 1 else 0)
unfolding used tracked
used-init mem_size m f h = elim (Bool-cases (ltb f 512)) [
  | inl low ↦ rw low (
      let e : (init mem_size m).bitmap (f / 32) ≡ 2 ^ 32 - 1 =
        ground (arith, bitmap-init mem_size m (f / 32)) in
      rw e (bit_ones 32 (f % 32) (omega arith)))
  | inr high ↦ rw high (
      let e : (init mem_size m).bitmap (f / 32) ≡ 0 =
        ground (arith, bitmap-init mem_size m (f / 32)) in
      rw e (bit_zero (f % 32)))
]

-- After `pmm_init(mem_size)` exactly the first 512 frames of the bitmap are in use, the counter
-- says 512, and the state is valid, whatever the memory held.
pub init_lem :
    (mem_size : ℕ) (m : Memory)
    → mem_size < 2 ^ 32
    → ((w : ℕ) → m w < 2 ^ 32)
    → IsValid (init mem_size m)
      × ((f : ℕ)
          → f < tracked (init mem_size m)
          → used (init mem_size m).bitmap f ≡ (if ltb f 512 then 1 else 0))
      × ((init mem_size m).used_frames ≡ 512)
      × ((init mem_size m).total_frames ≡ mem_size / 4096)
init_lem mem_size m small words = (
  record {
    words = λ w. ground (arith, bitmap-init mem_size m w, words w);
    frames = frames;
    zero_used = first;
  },
  used-init mem_size m,
  counts.0,
  counts.1,
)
  where
    counts :
        ((init mem_size m).used_frames ≡ 512) × ((init mem_size m).total_frames ≡ mem_size / 4096)
    counts = unfold init in (refl, refl)

    frames : (init mem_size m).total_frames < 2 ^ 20
    frames = omega (arith, counts.1)

    first : used (init mem_size m).bitmap 0 ≡ 1
    first =
        let e : (init mem_size m).bitmap 0 ≡ 2 ^ 32 - 1 =
          ground (arith, bitmap-init mem_size m 0) in
        unfold used in rw e (bit_ones 32 0 (omega arith))

count_below :
    (m : Memory) (n : ℕ)
    → ((f : ℕ) → f < n → used m f ≡ (if ltb f 512 then 1 else 0))
    → count_used m n ≡ min n 512
unfolding count_used
count_below m zero h = refl
count_below m (suc n) h =
    ground (arith, h n (omega arith), count_below m n (λ f l. h f (omega arith)))

-- With at least 2 MiB the counter agrees with the bitmap from the start.
pub init-Counted :
    (mem_size : ℕ) (m : Memory)
    → mem_size < 2 ^ 32
    → ((w : ℕ) → m w < 2 ^ 32)
    → 0x20_0000 ≤ mem_size
    → Counted (init mem_size m)
init-Counted mem_size m small words enough =
    let (v, bits, count, total) = init_lem mem_size m small words in
    count
    ∙ sym (
        count_below (init mem_size m).bitmap (tracked (init mem_size m)) bits
        ∙ omega (arith, tracked_covers v, total))
