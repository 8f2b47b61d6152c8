-- ===== src/Memory/Heap/Grow.antt =====
-- What `munux_c_heap_grow` answers.
use munux.Common.{
  ℕ, zero, suc, ◌+◌, ◌-◌, ◌*◌, ◌/◌, ◌^◌, ◌≤◌, ◌<◌, ◌≡◌, refl, true, false, some, ltb, leb,
  if◌then◌else◌, arith,
}
use munux.Common.Masks.{and-page_mask}
use munux.Common.Word.{add32, sub32}
use munux.Memory.Vmm.{Vmm}
use munux.Memory.Heap.{Heap, align, map_frame, map_heap_range, munux_c_heap_grow}

-- Up to one page below 2^32, a size is rounded up to pages; above, it becomes 0.
align_lem :
    (x : ℕ)
    → x < 2 ^ 32
    → align x 4096 ≡ (if leb x (2 ^ 32 - 4096) then (x + 4095) / 4096 * 4096 else 0)
align_lem x h = ground (arith, and-page_mask (sub32 (add32 x 4096) 1))

-- The frames of `n` pages from `from` on.
abbrev pub map_frames : (n from : ℕ) → Vmm → Vmm
map_frames zero from s = s
map_frames (suc n) from s = map_frames n (from + 4096) (map_frame from s)

-- The loop over a range of whole pages below 2^32 ends after as many rounds as there are pages.
pub map_heap_range_lem :
    (n fuel from : ℕ) (s : Vmm)
    → n < fuel
    → from + n * 4096 < 2 ^ 32
    → map_heap_range fuel from (from + n * 4096) s ≡ some (map_frames n from s)
unfolding map_heap_range
map_heap_range_lem n zero from s h l = elim h [ ]
map_heap_range_lem zero (suc fuel) from s h l = ground arith
map_heap_range_lem (suc n) (suc fuel) from s h l =
    let more : ltb from (from + suc n * 4096) ≡ true = ground arith in
    let next : add32 from 4096 ≡ from + 4096 = omega arith in
    let end : from + suc n * 4096 ≡ from + 4096 + n * 4096 = omega arith in
    rw (more, next, end)
      (map_heap_range_lem n fuel (from + 4096) (map_frame from s) (omega arith) (omega arith))

map_nothing :
    (fuel from to : ℕ) (s : Vmm) → 0 < fuel → to ≤ from → map_heap_range fuel from to s ≡ some s
unfolding map_heap_range
map_nothing zero from to s h l = elim h [ ]
map_nothing (suc fuel) from to s h l = ground arith

-- The bytes asked for, rounded up to pages.
abbrev pub pages : ℕ → ℕ
pages min_bytes = (min_bytes + 4095) / 4096

module _ {ℓ} {R : Type ℓ} (fuel min_bytes : ℕ) (h : Heap R) where
  -- Where the rounded size is a 32-bit number and does not take the end of the heap past 2^32, and
  -- the loop may take more rounds than there are pages, `munux_c_heap_grow` ends: past the highest
  -- address of the heap it returns 0 and changes nothing; else it maps a frame for each page from
  -- the old end on, in order, and returns the new end.
  pub heap_grow_lem :
      min_bytes ≤ 2 ^ 32 - 4096
      → h.heap_end + pages min_bytes * 4096 < 2 ^ 32
      → pages min_bytes < fuel
      → let new_end = h.heap_end + pages min_bytes * 4096 in
        munux_c_heap_grow fuel min_bytes h ≡ (
          if ltb h.heap_max_addr new_end
          then some (0, h)
          else some (
            new_end,
            record h {
              heap_end = new_end;
              paging = map_frames (pages min_bytes) h.heap_end h.paging;
            },
          ))
  unfolding munux_c_heap_grow
  heap_grow_lem small fits enough =
      let rounded : align min_bytes 4096 ≡ pages min_bytes * 4096 =
        ground (arith, align_lem min_bytes) in
      let sum : add32 h.heap_end (pages min_bytes * 4096) ≡ h.heap_end + pages min_bytes * 4096 =
        omega arith in
      rw (rounded, sum, map_heap_range_lem (pages min_bytes) fuel h.heap_end h.paging enough fits)
        refl

  -- Where the rounded size takes the end of the heap beyond 2^32 (a sum of 2^32 itself is left out: it
  -- wraps to 0, the value for failure), `munux_c_heap_grow` does not fail: it maps nothing, and
  -- returns the wrapped end, which is not 0 and below the old one, as the new end of the heap.
  pub heap_grow-wraps :
      min_bytes ≤ 2 ^ 32 - 4096
      → 2 ^ 32 < h.heap_end + pages min_bytes * 4096
      → h.heap_end ≤ h.heap_max_addr
      → h.heap_end < 2 ^ 32
      → 0 < fuel
      → let new_end = h.heap_end + pages min_bytes * 4096 - 2 ^ 32 in
        (munux_c_heap_grow fuel min_bytes h ≡ some (new_end, record h { heap_end = new_end }))
        × (0 < new_end)
        × (new_end < h.heap_end)
  unfolding munux_c_heap_grow
  heap_grow-wraps small past within word some_fuel =
      let rounded : align min_bytes 4096 ≡ pages min_bytes * 4096 =
        ground (arith, align_lem min_bytes) in
      let new_end = h.heap_end + pages min_bytes * 4096 - 2 ^ 32 in
      let sum : add32 h.heap_end (pages min_bytes * 4096) ≡ new_end = omega arith in
      let below : ltb h.heap_max_addr new_end ≡ false = ground arith in
      let none_left : map_heap_range fuel h.heap_end new_end h.paging ≡ some h.paging =
        map_nothing fuel h.heap_end new_end h.paging some_fuel (omega arith) in
      (rw (rounded, sum, below, none_left) refl, omega arith, omega arith)
