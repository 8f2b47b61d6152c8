-- ===== src/Memory/Heap.antt =====
-- munux-os/kernel/memory/heap.c: the region of the kernel heap, and how it grows. The allocator in
-- it is the Rust library's: what it does to the state is a parameter, its calls of
-- `munux_c_heap_grow` included.
pub mod Grow
pub mod Mapped
pub mod Region
mod Tests
use munux.Common.{
  ◌>>=◌, ℕ, zero, suc, ◌+◌, ◌-◌, Option, none, some, bit_and, bit_or, ◌==◌, ◌||◌, ltb,
  if◌then◌else◌,
}
use munux.Common.Word.{add32, sub32, not32}
use munux.Common.Memory.{Memory, update}
use munux.Memory.Pmm.{page_size, alloc_frame}
use munux.Memory.Vmm.{Vmm, page_present, page_write, map_page, get_physical_address}

abbrev pub heap_start : ℕ
heap_start = 0xc000_0000

abbrev pub heap_initial_size : ℕ
heap_initial_size = 0x10_0000

abbrev pub heap_max_size : ℕ
heap_max_size = 0x1000_0000

-- The static variables, the page tables and frames, and the state of the Rust allocator.
pub record Heap {ℓ} (R : Type ℓ) : Type ℓ where
  pub heap_end : ℕ
  pub heap_max_addr : ℕ
  pub paging : Vmm
  pub rust : R

-- `ALIGN(x, a)`
abbrev pub align : (x a : ℕ) → ℕ
align x a = bit_and (sub32 (add32 x a) 1) (not32 (sub32 a 1))

-- A frame for the page at `va`.
pub map_frame : ℕ → Vmm → Vmm
map_frame va s =
    let (frame, frames') = alloc_frame s.frames in
    map_page va frame (bit_or page_present page_write) (record s { frames = frames' })

-- `map_heap_range`; `none` if the loop has not ended within the fuel.
pub map_heap_range : (fuel from to : ℕ) → Vmm → Option Vmm
map_heap_range zero from to s = none
map_heap_range (suc n) from to s =
    let later = map_heap_range n (add32 from page_size) to (map_frame from s) in
    if ltb from to then later else some s

module _ {ℓ} {R : Type ℓ} where
  abbrev pub grown : (new_end : ℕ) → Heap R → Option Vmm → Option (ℕ × Heap R)
  grown new_end h none = none
  grown new_end h (some s) = some (new_end, record h { heap_end = new_end; paging = s })

  -- `munux_c_heap_grow`: the new end, or 0.
  pub munux_c_heap_grow : (fuel min_bytes : ℕ) → Heap R → Option (ℕ × Heap R)
  munux_c_heap_grow fuel min_bytes h =
      let new_end = add32 h.heap_end (align min_bytes page_size) in
      if ltb h.heap_max_addr new_end
      then some (0, h)
      else grown new_end h (map_heap_range fuel h.heap_end new_end h.paging)

  -- `heap_init`; `rs_heap_init` is `munux_rs_heap_init`.
  pub heap_init :
      (fuel : ℕ) → (rs_heap_init : (start initial max : ℕ) → R → R) → Heap R → Option (Heap R)
  heap_init fuel rs_heap_init h =
      map_heap_range fuel heap_start (add32 heap_start heap_initial_size) h.paging >>= λ s.
      some (record {
        heap_end = add32 heap_start heap_initial_size;
        heap_max_addr = add32 heap_start heap_max_size;
        paging = s;
        rust = rs_heap_init heap_start heap_initial_size heap_max_size h.rust;
      })

  -- `kmalloc`, over `munux_rs_alloc`: the address, or 0.
  pub kmalloc : (rs_alloc : ℕ → Heap R → ℕ × Heap R) → ℕ → Heap R → ℕ × Heap R
  kmalloc rs_alloc size h = rs_alloc size h

  -- `kfree`, over `munux_rs_free`.
  pub kfree : (rs_free : ℕ → Heap R → Heap R) → ℕ → Heap R → Heap R
  kfree rs_free ptr h = rs_free ptr h

  -- `kfree_aligned`, over `munux_rs_free_aligned`.
  pub kfree_aligned : (rs_free_aligned : ℕ → Heap R → Heap R) → ℕ → Heap R → Heap R
  kfree_aligned rs_free_aligned ptr h = rs_free_aligned ptr h

  -- `kmalloc_aligned`, over `munux_rs_alloc_aligned`.
  pub kmalloc_aligned :
      (rs_alloc_aligned : (size alignment : ℕ) → Heap R → ℕ × Heap R) → ℕ → Heap R → ℕ × Heap R
  kmalloc_aligned rs_alloc_aligned size h = rs_alloc_aligned size page_size h

  -- `kmalloc_physical`: where the pointers are not null, the physical address goes to `phys_addr`.
  pub kmalloc_physical :
      (rs_alloc : ℕ → Heap R → ℕ × Heap R) → (size phys_addr : ℕ) → Heap R → ℕ × Heap R
  kmalloc_physical rs_alloc size phys_addr h =
      let (virt, h') = kmalloc rs_alloc size h in
      let physical = get_physical_address virt h'.paging in
      if virt == 0 || phys_addr == 0 then (virt, h') else (
        virt,
        record h' {
          paging = record h'.paging { memory = update h'.paging.memory phys_addr physical };
        },
      )
