-- ===== src/Kernel/Boot/Paging.antt =====
-- The page tables as the start leaves them.
use munux.Common.{ℕ, ◌+◌, ◌*◌, ◌%◌, ◌≤◌, ◌^◌, ◌<◌, ◌≡◌, refl, some, ltb, if◌then◌else◌, arith}
use munux.Common.Text.{bytes_of}
use munux.Common.Memory.{Memory}
use munux.Kernel.Console.{Console, show}
use munux.Memory.Pmm.Find.{tracked_covers}
use munux.Memory.Vmm.{Vmm, init, get_physical_address}
use munux.Memory.Vmm.Invariant.{IsPaged}
use munux.Memory.Vmm.Identity.{Room, init_identity}
use munux.Kernel.Boot.{boot_vmm}
use munux.Kernel.Boot.Frames.{boot_pmm_lem}

-- Where the boot loader reports 128 MiB at most and the bitmap holds 32-bit words, the start comes to paging
-- with well-formed tables, in which the first 8 MiB lead to themselves and no other address is mapped,
-- the first 2 MiB in use, and 5630 frames in a row free.
pub boot_vmm_lem :
    (magic mb_info_addr : ℕ) (mbi : Memory) (buf : ℕ) (bitmap memory m : Memory) (s : Console)
    → ((w : ℕ) → bitmap w < 2 ^ 32)
    → (0x10_0000 + mbi 2 * 1024) % 2 ^ 32 ≤ 0x800_0000
    → (t : Vmm) × (s' : Console) × (boot_vmm magic mb_info_addr mbi buf bitmap memory m s
        ≡ some (t, s'))
      × IsPaged t
      × Room 5630 t.frames
      × ((w : ℕ) → w < 2 ^ 32 → get_physical_address w t ≡ (if ltb w 0x80_0000 then w else 0))
unfolding boot_vmm
boot_vmm_lem magic mb_info_addr mbi buf bitmap memory m s words fits =
    let (p, s', e, v, _, _, bits, enough, _) =
      boot_pmm_lem magic mb_info_addr mbi buf bitmap m s words fits in
    let start : Vmm = record {
      memory = memory;
      current_directory = 0;
      kernel_directory = 0;
      frames = p;
    } in
    let (paged, room, same) = init_identity 5630 start v (
      512,
      omega (arith, enough, tracked_covers v),
      λ g lo h. ground (arith, bits g h),
      λ g h. ground (arith, bits g (omega (arith, enough, tracked_covers v))),
    ) in
    (
      init start,
      show (bytes_of "[OK] Inicializando VMM + paginacao...\n") s',
      rw e refl,
      paged,
      room,
      same,
    )
