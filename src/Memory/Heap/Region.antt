-- ===== src/Memory/Heap/Region.antt =====
-- The region of the heap: as `heap_init` leaves it, and as `munux_c_heap_grow` extends it.
use munux.Common.{some, ℕ, ◌+◌, ◌-◌, ◌*◌, ◌%◌, ◌^◌, ◌≤◌, ◌<◌, ◌≡◌, refl, false, ltb, arith}
use munux.Memory.Vmm.Invariant.{IsPaged}
use munux.Memory.Vmm.Identity.{Room}
use munux.Memory.Heap.{Heap, munux_c_heap_grow, heap_init}
use munux.Memory.Heap.Grow.{map_frames, map_heap_range_lem, pages, heap_grow_lem}
use munux.Memory.Heap.Mapped.{Mapped, map_frames_lem}

-- The heap as `heap_init` leaves it.
pub heap_init_lem {ℓ} :
    {R : Type ℓ} (fuel k : ℕ) (rs_heap_init : (start initial max : ℕ) → R → R) (h : Heap R)
    → 256 < fuel
    → IsPaged h.paging
    → Room (512 + k) h.paging.frames
    → (h' : Heap R) × (heap_init fuel rs_heap_init h ≡ some h')
      × (h'.heap_end ≡ 0xc010_0000)
      × (h'.heap_max_addr ≡ 0xd000_0000)
      × (h'.rust ≡ rs_heap_init 0xc000_0000 0x10_0000 0x1000_0000 h.rust)
      × IsPaged h'.paging
      × Room k h'.paging.frames
      × Mapped 256 0xc000_0000 h.paging h'.paging
unfolding heap_init
heap_init_lem fuel k rs_heap_init h enough i room =
    let ran = map_heap_range_lem 256 fuel 0xc000_0000 h.paging enough (omega arith) in
    let (paged, rest, m) = map_frames_lem 256 k 0xc000_0000 h.paging refl (omega arith) i room in
    (
      record {
        heap_end = 0xc010_0000;
        heap_max_addr = 0xd000_0000;
        paging = map_frames 256 0xc000_0000 h.paging;
        rust = rs_heap_init 0xc000_0000 0x10_0000 0x1000_0000 h.rust;
      },
      rw ran refl,
      refl,
      refl,
      refl,
      paged,
      rest,
      m,
    )

-- With the page tables at physical addresses, as in Memory.Vmm: where they are well-formed, two frames are left in a row for each page asked for, and the
-- heap stays within its highest address, `munux_c_heap_grow` returns the new end; each new page leads
-- to a frame of its own that was free, every other address leads to where it led, and the tables
-- are well-formed.
pub heap_grow-Mapped {ℓ} :
    {R : Type ℓ} (fuel min_bytes k : ℕ) (h : Heap R)
    → min_bytes ≤ 2 ^ 32 - 4096
    → h.heap_end % 4096 ≡ 0
    → h.heap_end + pages min_bytes * 4096 ≤ h.heap_max_addr
    → h.heap_max_addr < 2 ^ 32
    → pages min_bytes < fuel
    → IsPaged h.paging
    → Room (pages min_bytes + pages min_bytes + k) h.paging.frames
    → (h' : Heap R) × (munux_c_heap_grow fuel min_bytes h ≡ some (h'.heap_end, h'))
      × (h'.heap_end ≡ h.heap_end + pages min_bytes * 4096)
      × IsPaged h'.paging
      × Room k h'.paging.frames
      × Mapped (pages min_bytes) h.heap_end h.paging h'.paging
heap_grow-Mapped fuel min_bytes k h small aligned within word enough i room =
    let n = pages min_bytes in
    let fits : ltb h.heap_max_addr (h.heap_end + n * 4096) ≡ false = ground arith in
    let (paged, rest, m) = map_frames_lem n k h.heap_end h.paging aligned (omega arith) i room in
    (
      record h { heap_end = h.heap_end + n * 4096; paging = map_frames n h.heap_end h.paging },
      rw fits at (heap_grow_lem fuel min_bytes h small (omega arith) enough),
      refl,
      paged,
      rest,
      m,
    )
