-- ===== src/Memory/Pmm.antt =====
-- munux-os/kernel/memory/pmm.c: the bitmap frame allocator, one bit for each frame of 4 KiB.
-- The bitmap is the array of words at BITMAP_BASE_ADDR; nothing bounds it but `total_frames`.
pub mod Find
pub mod Alloc
pub mod Count
pub mod Init
pub mod Slack
mod Tests
use munux.Common.{
  ℕ, zero, suc, ◌+◌, ◌-◌, ◌*◌, ◌/◌, ◌%◌, ◌^◌, Option, none, some, bit_and, bit_or, ◌==◌, ltb,
  if◌then◌else◌,
}
use munux.Common.Word.{add32, sub32, mul32, not32, u32_max}
use munux.Common.Memory.{Memory, update}

abbrev pub page_size : ℕ
page_size = 4096

abbrev pub bits_per_word : ℕ
bits_per_word = 32

abbrev pub kernel_reserved : ℕ
kernel_reserved = 0x20_0000

abbrev pub frames_not_found : ℕ
frames_not_found = u32_max

-- The three static variables of the file.
pub record Pmm : Type 0 where
  pub bitmap : Memory
  pub total_frames : ℕ
  pub used_frames : ℕ

abbrev pub addr_to_frame : ℕ → ℕ
addr_to_frame addr = addr / page_size

pub bitmap_words : Pmm → ℕ
bitmap_words s = sub32 (add32 s.total_frames bits_per_word) 1 / bits_per_word

pub mark_frame_used : ℕ → Pmm → Pmm
mark_frame_used frame s =
    let w = frame / bits_per_word in
    record s { bitmap = update s.bitmap w (bit_or (s.bitmap w) (2 ^ (frame % bits_per_word))) }

pub mark_frame_free : ℕ → Pmm → Pmm
mark_frame_free frame s =
    let w = frame / bits_per_word in
    record s {
      bitmap = update s.bitmap w (bit_and (s.bitmap w) (not32 (2 ^ (frame % bits_per_word))));
    }

-- The inner loop of `find_free_frame`, with `n` rounds left.
find_bit : (n bit word : ℕ) → Option ℕ
find_bit zero bit word = none
find_bit (suc n) bit word =
    let rest = find_bit n (bit + 1) word in if bit_and word (2 ^ bit) == 0 then some bit else rest

-- The outer loop, with `n` words left.
find_word : (n w : ℕ) → Memory → ℕ
find_word zero w bitmap = frames_not_found
find_word (suc n) w bitmap =
    let rest = find_word n (w + 1) bitmap in
    if bitmap w == 0xffff_ffff then rest else elim (find_bit bits_per_word 0 (bitmap w)) [
      | none ↦ rest
      | some bit ↦ add32 (mul32 w bits_per_word) bit
    ]

pub find_free_frame : Pmm → ℕ
unfolding find_bit find_word bitmap_words
find_free_frame s = find_word (bitmap_words s) 0 s.bitmap

-- `for (w = from; w < from + n; w++) frame_bitmap[w] = v`
fill_words : (n w v : ℕ) → Memory → Memory
fill_words zero w v m = m
fill_words (suc n) w v m = fill_words n (w + 1) v (update m w v)

-- `pmm_init(mem_size)`, over the words that memory holds when it runs.
pub init : ℕ → Memory → Pmm
init mem_size m =
    let empty : Pmm = record { bitmap = m; total_frames = mem_size / page_size; used_frames = 0 } in
    let zeroed = fill_words (bitmap_words empty) 0 0 m in
    let reserved_frames : ℕ = kernel_reserved / page_size in
    let full_words : ℕ = reserved_frames / bits_per_word in
    let tail_bits : ℕ = reserved_frames % bits_per_word in
    let filled = fill_words full_words 0 0xffff_ffff zeroed in
    record {
      bitmap = if tail_bits == 0 then filled else update filled full_words (2 ^ tail_bits - 1);
      total_frames = mem_size / page_size;
      used_frames = reserved_frames;
    }

-- `pmm_alloc_frame`: the address of the frame, 0 if there is none.
pub alloc_frame : Pmm → ℕ × Pmm
alloc_frame s =
    let frame = find_free_frame s in
    if frame == frames_not_found
    then (0, s)
    else let s' = mark_frame_used frame s in
      (mul32 frame page_size, record s' { used_frames = add32 s'.used_frames 1 })

pub free_frame : ℕ → Pmm → Pmm
free_frame frame_addr s =
    let s' = mark_frame_free (addr_to_frame frame_addr) s in
    if ltb 0 s'.used_frames then record s' { used_frames = s'.used_frames - 1 } else s'

pub get_total_memory : Pmm → ℕ
get_total_memory s = mul32 s.total_frames page_size

pub get_free_memory : Pmm → ℕ
get_free_memory s = mul32 (sub32 s.total_frames s.used_frames) page_size
