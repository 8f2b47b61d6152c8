-- ===== src/Memory/Vmm/Tests.antt =====
-- The theorems on translation at a concrete memory.
use munux.Common.{ℕ, ◌+◌, ◌*◌, ◌/◌, ◌%◌, ◌^◌, ◌<◌, ◌≢◌, ◌≡◌, refl, ◌==◌, if◌then◌else◌, arith}
use munux.Memory.Pmm
use munux.Memory.Pmm.{Pmm}
use munux.Memory.Pmm.Find.{IsValid, tracked_covers}
use munux.Memory.Pmm.Init.{init_lem}
use munux.Memory.Vmm.Invariant.{IsPaged}
use munux.Memory.Vmm.Mapping.{map_page_lem}
use munux.Memory.Vmm.Identity.{Room, Room-alloc_frame, blank_directory, blank_directory-IsPaged}
use munux.Memory.Vmm.{Vmm, table_of, map_page, get_physical_address}

-- A directory at 0x300000, with the page table at 0x301000 for the first 4 MiB, which maps its
-- second page.
abbrev machine : Vmm
machine = record {
  memory = λ q. if q == 0x30_0000 then 0x30_1003 else if q == 0x30_1004 then 0x1003 else 0;
  current_directory = 0x30_0000;
  kernel_directory = 0x30_0000;
  frames = record { bitmap = λ w. 0; total_frames = 4096; used_frames = 0 };
}

machine_table : (table_of 0x2abc machine ≡ 0x30_1000) × (table_of 0x1abc machine ≡ 0x30_1000)
unfolding table_of
machine_table = (refl, refl)

-- Memory of 32 MiB, before paging.
abbrev booted : Vmm
booted = record {
  memory = λ q. 7;
  current_directory = 0;
  kernel_directory = 0;
  frames = Pmm.init 0x200_0000 (λ w. 7);
}

booted-IsValid : IsValid booted.frames
booted-IsValid = (init_lem 0x200_0000 (λ w. 7) (omega arith) (λ w. omega arith)).0

booted-Room : Room 2 booted.frames
booted-Room =
    let (v, bits, _, frames) = init_lem 0x200_0000 (λ w. 7) (omega arith) (λ w. omega arith) in
    (
      512,
      omega (arith, frames, tracked_covers v),
      λ g lo h. ground (arith, bits g h),
      λ g h. ground (arith, bits g (omega (arith, frames, tracked_covers v))),
    )

-- The directory alone.
started-IsPaged : IsPaged (blank_directory booted)
started-IsPaged =
    (blank_directory-IsPaged booted booted-IsValid
      (Room-alloc_frame 1 booted.frames booted-IsValid booted-Room).0).0

map_page_lem_example :
    let s = blank_directory booted in
    IsPaged (map_page 0x40_2abc 0x5000 3 s)
    × (get_physical_address 0x40_2abc (map_page 0x40_2abc 0x5000 3 s)
        ≡ 0x5000 / 4096 * 4096 + 0x40_2abc % 4096)
    × ((w : ℕ)
        → w < 2 ^ 32
        → 0x40_2abc / 4096 ≢ w / 4096
        → get_physical_address w (map_page 0x40_2abc 0x5000 3 s) ≡ get_physical_address w s)
map_page_lem_example =
    map_page_lem 0x40_2abc 0x5000 3 (blank_directory booted) (omega arith) (omega arith)
      (omega arith) refl started-IsPaged
      (λ _.
        (Room-alloc_frame 0 (blank_directory booted).frames started-IsPaged.frames
          (Room-alloc_frame 1 booted.frames booted-IsValid booted-Room).1).0)
