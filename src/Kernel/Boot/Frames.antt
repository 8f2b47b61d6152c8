-- ===== src/Kernel/Boot/Frames.antt =====
-- The frame allocator as the start leaves it.
use munux.Common.{
  ℕ, ◌^◌, ◌≤◌, ◌<◌, ◌≡◌, refl, inl, inr, false, ◌==◌, ◌+◌, ◌*◌, ◌%◌, Bool-cases, some, arith, ltb,
  if◌then◌else◌,
}
use munux.Common.Text.{bytes_of}
use munux.Common.Memory.{Memory}
use munux.Kernel.Console.{Console, show}
use munux.Memory.Pmm.{Pmm, init, alloc_frame}
use munux.Memory.Pmm.Find.{used, tracked, IsValid, tracked_covers}
use munux.Memory.Pmm.Alloc.{alloc_frame_lem}
use munux.Memory.Pmm.Count.{Counted}
use munux.Memory.Pmm.Init.{init_lem, init-Counted}
use munux.Kernel.Boot.{mem_fallback_bytes, boot_pmm}
use munux.Kernel.Boot.Detect.{detect_memory_lem}

-- After `pmm_init` of at least 32 MiB the first frame handed out is the one at 2 MiB.
alloc_frame-init :
    (total : ℕ) (bitmap : Memory)
    → mem_fallback_bytes ≤ total
    → total < 2 ^ 32
    → ((w : ℕ) → bitmap w < 2 ^ 32)
    → (alloc_frame (init total bitmap)).0 ≡ 0x20_0000
alloc_frame-init total bitmap lo hi words =
    let (v, bits, _, frames) = init_lem total bitmap hi words in
    let reach : 512 < tracked (init total bitmap) = omega (arith, (tracked_covers v).0, frames) in
    let hole : used (init total bitmap).bitmap 512 ≡ 0 = ground (arith, bits 512) in
    elim (alloc_frame_lem v) [
      | inl (_, _, full) ↦ absurd (omega (arith, hole, full 512 reach))
      | inr (f, addr, _, up, free, low, _, _, _) ↦
          let first : f ≡ 512 = ground (arith, bits f up, low 512, hole) in omega (arith, addr)
    ]

-- Where the boot loader reports 128 MiB at most, the start comes to its end with a well-formed frame allocator: at
-- least 32 MiB, of which the first 2 MiB alone are in use, the counter that of the bitmap, and
-- the frame at 2 MiB the first to be handed out.
pub boot_pmm_lem :
    (magic mb_info_addr : ℕ) (mbi : Memory) (buf : ℕ) (bitmap m : Memory) (s : Console)
    → ((w : ℕ) → bitmap w < 2 ^ 32)
    → (0x10_0000 + mbi 2 * 1024) % 2 ^ 32 ≤ 0x800_0000
    → (p : Pmm) × (s' : Console) × (boot_pmm magic mb_info_addr mbi buf bitmap m s ≡ some (p, s'))
      × IsValid p
      × Counted p
      × (p.used_frames ≡ 512)
      × ((f : ℕ) → f < tracked p → used p.bitmap f ≡ (if ltb f 512 then 1 else 0))
      × (8192 ≤ p.total_frames)
      × ((alloc_frame p).0 ≡ 0x20_0000)
unfolding boot_pmm
boot_pmm_lem magic mb_info_addr mbi buf bitmap m s words fits =
    let (total, s', e, lo, hi, why) = detect_memory_lem magic mb_info_addr mbi buf m s in
    let (v, bits, count, frames) = init_lem total bitmap hi words in
    let within : ltb 0x800_0000 total ≡ false = elim (Bool-cases (total == mem_fallback_bytes)) [
      | inl fallback ↦ ground arith
      | inr more ↦ let (_, _, _, sum) = why (ground arith) in ground (arith, sum)
    ] in
    (
      init total bitmap,
      show (bytes_of "[OK] Inicializando PMM...\n") s',
      rw (e, within) refl,
      v,
      init-Counted total bitmap hi words (omega arith),
      count,
      bits,
      omega (arith, frames),
      alloc_frame-init total bitmap lo hi words,
    )
