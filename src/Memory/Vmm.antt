-- ===== src/Memory/Vmm.antt =====
-- munux-os/kernel/memory/vmm.c: page directory and page tables, which lie in physical memory. A
-- page table is reached at its physical address, as in the code. The caches of the processor
-- (`invlpg`, the load of `cr3`) and the switch to paging itself hold no state here.
pub mod Translate
pub mod Words
pub mod Others
pub mod Invariant
pub mod Mapping
pub mod Identity
pub mod Frames
mod Tests
use munux.Common.{ℕ, zero, suc, ◌+◌, ◌-◌, ◌*◌, ◌/◌, ◌%◌, ◌^◌, bit_and, bit_or, ◌==◌, if◌then◌else◌}
use munux.Common.Word.{add32}
use munux.Common.Memory.{Memory, update}
use munux.Memory.Pmm.{Pmm, alloc_frame, page_size}

abbrev pub page_present : ℕ
page_present = 0x1

abbrev pub page_write : ℕ
page_write = 0x2

-- The memory by the address of each 32-bit word, the static variables, and the frames.
pub record Vmm : Type 0 where
  pub memory : Memory
  pub current_directory : ℕ
  pub kernel_directory : ℕ
  pub frames : Pmm

abbrev pub pd_index : ℕ → ℕ
pd_index virtual = virtual / 2 ^ 22

abbrev pub pt_index : ℕ → ℕ
pt_index virtual = bit_and (virtual / 2 ^ 12) 0x3ff

-- The address of entry `i` of a table of words.
abbrev pub entry : ℕ → ℕ → ℕ
entry table i = table + 4 * i

-- `n` words from entry `i` on become 0.
pub clear_entries : (n i table : ℕ) → Memory → Memory
clear_entries zero i table m = m
clear_entries (suc n) i table m = clear_entries n (i + 1) table (update m (entry table i) 0)

-- The page table of a virtual address, as the directory names it.
pub table_of : ℕ → Vmm → ℕ
table_of virtual s = bit_and (s.memory (entry s.current_directory (pd_index virtual))) 0xffff_f000

abbrev pub has_table : ℕ → Vmm → ℕ
has_table virtual s = bit_and (s.memory (entry s.current_directory (pd_index virtual))) page_present

-- `vmm_map_page` allocates the page table if there is none.
pub new_table : ℕ → ℕ → Vmm → Vmm
new_table virtual flags s =
    let (pt_phys, frames') = alloc_frame s.frames in
    record s {
      memory = clear_entries 1024 0 pt_phys (
          update s.memory (entry s.current_directory (pd_index virtual))
            (bit_or (bit_or (bit_or pt_phys page_present) page_write) flags));
      frames = frames';
    }

-- The end of `vmm_map_page`, with the page table there.
pub set_page : ℕ → ℕ → ℕ → Vmm → Vmm
set_page virtual physical flags s = record s {
  memory =
      update s.memory (entry (table_of virtual s) (pt_index virtual))
        (bit_or (bit_and physical 0xffff_f000) flags);
}

-- `vmm_map_page`
pub map_page : ℕ → ℕ → ℕ → Vmm → Vmm
map_page virtual physical flags s =
    set_page virtual physical flags
      (if has_table virtual s == 0 then new_table virtual flags s else s)

-- `vmm_unmap_page`
pub unmap_page : ℕ → Vmm → Vmm
unmap_page virtual s =
    if has_table virtual s == 0
    then s
    else record s { memory = update s.memory (entry (table_of virtual s) (pt_index virtual)) 0 }

-- `vmm_get_physical_address`
pub get_physical_address : ℕ → Vmm → ℕ
get_physical_address virtual s =
    let page = s.memory (entry (table_of virtual s) (pt_index virtual)) in
    if has_table virtual s == 0
    then 0
    else if bit_and page page_present == 0
    then 0
    else add32 (bit_and page 0xffff_f000) (bit_and virtual 0xfff)

-- The loop of `vmm_init` that maps `n` pages from `i` on to themselves.
pub map_identity : (n i : ℕ) → Vmm → Vmm
map_identity zero i s = s
map_identity (suc n) i s =
    map_identity n (i + page_size) (map_page i i (bit_or page_present page_write) s)

-- `vmm_init`: 0x800 pages are the first 8 MiB.
pub init : Vmm → Vmm
init s =
    let (pd_phys, frames') = alloc_frame s.frames in
    map_page 0xb8000 0xb8000 (bit_or page_present page_write) (
      map_identity 0x800 0 (record s {
        memory = clear_entries 1024 0 pd_phys s.memory;
        kernel_directory = pd_phys;
        current_directory = pd_phys;
        frames = frames';
      }))

-- `vmm_switch_directory`
pub switch_directory : ℕ → Vmm → Vmm
switch_directory dir s = record s { current_directory = dir }
