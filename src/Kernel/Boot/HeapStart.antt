-- ===== src/Kernel/Boot/HeapStart.antt =====
-- The heap as the start leaves it, over the frames and the page tables.
use munux.Common.{
  ℕ, ◌+◌, ◌*◌, ◌/◌, ◌%◌, ◌^◌, ◌≤◌, ◌<◌, ◌≡◌, ◌≢◌, refl, ◌∙◌, ◌⊎◌, inl, inr, some, ltb,
  if◌then◌else◌, arith, Bool-cases,
}
use munux.Common.Text.{bytes_of}
use munux.Common.Memory.{Memory}
use munux.Kernel.Console.{Console, show}
use munux.Memory.Vmm.{get_physical_address}
use munux.Memory.Vmm.Invariant.{IsPaged}
use munux.Memory.Heap.{Heap}
use munux.Memory.Heap.Mapped.{Within}
use munux.Memory.Heap.Region.{heap_init_lem}
use munux.Kernel.Boot.{boot_heap}
use munux.Kernel.Boot.Paging.{boot_vmm_lem}

-- The first MiB of the heap.
abbrev pub InHeap : ℕ → Type 0
InHeap = Within 256 0xc000_0000

-- Where the memory that the boot loader reports is 128 MiB at most, for which the bitmap has room in
-- front of the code, the bitmap holds 32-bit words and the loop over the heap may take more than
-- its 256 rounds, the start comes to a heap of one MiB at 0xC0000000: its pages
-- lead to frames behind the first 2 MiB, different pages to different frames; the first 8 MiB
-- still lead to themselves, and no other address is mapped.
pub boot_heap_lem {ℓ} :
    {R : Type ℓ} (fuel : ℕ) (rs_heap_init : (start initial max : ℕ) → R → R) (rust : R)
    (magic mb_info_addr : ℕ) (mbi : Memory) (buf : ℕ) (bitmap memory m : Memory) (s : Console)
    → ((w : ℕ) → bitmap w < 2 ^ 32)
    → (0x10_0000 + mbi 2 * 1024) % 2 ^ 32 ≤ 0x800_0000
    → 256 < fuel
    → (h : Heap R) × (s' : Console) × (boot_heap fuel rs_heap_init rust magic mb_info_addr mbi buf
          bitmap memory m s
        ≡ some (h, s'))
      × (h.heap_end ≡ 0xc010_0000)
      × (h.heap_max_addr ≡ 0xd000_0000)
      × IsPaged h.paging
      × ((w : ℕ)
          → w < 2 ^ 32
          → InHeap w
          → (0x20_0000 ≤ get_physical_address w h.paging)
            × (get_physical_address w h.paging % 4096 ≡ w % 4096))
      × ((v w : ℕ)
          → v < 2 ^ 32
          → w < 2 ^ 32
          → InHeap v
          → InHeap w
          → v / 4096 < w / 4096
          → get_physical_address v h.paging / 4096 ≢ get_physical_address w h.paging / 4096)
      × ((w : ℕ)
          → w < 2 ^ 32
          → (w < 0xc000_0000) ⊎ (0xc010_0000 ≤ w)
          → get_physical_address w h.paging ≡ (if ltb w 0x80_0000 then w else 0))
unfolding boot_heap
boot_heap_lem fuel rs_heap_init rust magic mb_info_addr mbi buf bitmap memory m s words
      reported_fits enough =
    let (t, s', e, paged, room, same) =
      boot_vmm_lem magic mb_info_addr mbi buf bitmap memory m s words reported_fits in
    let start : Heap _ = record { heap_end = 0; heap_max_addr = 0; paging = t; rust = rust } in
    let (h, e', end, top, _, i, _, mapped) =
      heap_init_lem fuel 5118 rs_heap_init start enough paged room in
    (
      h,
      show (bytes_of "[OK] Inicializando heap (backend: Rust)...\n") s',
      rw (e, e') refl,
      end,
      top,
      i,
      λ w hw within.
          let (offset, free, _) = mapped.inside w hw within in
          (
            elim (Bool-cases (ltb (get_physical_address w h.paging / 4096) 512)) [
              | inl low ↦ absurd (
                  omega
                    (arith, free, room.3 (get_physical_address w h.paging / 4096) (ground arith)))
              | inr high ↦ ground arith
            ],
            offset,
          ),
      mapped.apart,
      λ w hw out. mapped.outside w hw out ∙ same w hw,
    )
