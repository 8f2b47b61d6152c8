-- ===== src/Memory/Vmm/Translate.antt =====
-- `vmm_get_physical_address` of a page that was mapped or unmapped.
use munux.Common.{
  ℕ, zero, suc, ◌+◌, ◌*◌, ◌/◌, ◌%◌, ◌^◌, ◌≤◌, ◌<◌, ◌≡◌, ◌≢◌, refl, ap, ◌∙◌, ◌⊎◌, inl, inr, bit_and,
  bit_or, ◌==◌, if◌then◌else◌, arith, Bool-cases, false,
}
use munux.Common.Memory.{Memory, update, update_ne, update_self}
use munux.Memory.Pmm.{alloc_frame}
use munux.Memory.Vmm.{
  Vmm, pd_index, pt_index, entry, clear_entries, table_of, has_table, new_table, set_page, map_page,
  unmap_page, get_physical_address,
}
use munux.Common.Masks.{and-offset, and-index, and-one, and-page_mask, page_entry, table_entry}

pub clear_entries_lem :
    (n i table : ℕ) (m : Memory) (q : ℕ)
    → (q < table + 4 * i) ⊎ (table + 4 * (i + n) ≤ q)
    → clear_entries n i table m q ≡ m q
unfolding clear_entries
clear_entries_lem zero i table m q out = refl
clear_entries_lem (suc n) i table m q out =
    let next : (q < table + 4 * (i + 1)) ⊎ (table + 4 * (i + 1 + n) ≤ q) = ground arith in
    ground (arith, clear_entries_lem n (i + 1) table (update m (entry table i) 0) q next)

-- A page table page apart from the directory shares no entry with it.
entries_apart :
    (v table dir : ℕ)
    → v < 2 ^ 32
    → table % 4096 ≡ 0
    → dir % 4096 ≡ 0
    → table ≢ dir
    → entry dir (pd_index v) ≢ entry table (pt_index v)
entries_apart v table dir h t d ne = omega (arith, and-index (v / 2 ^ 12))

-- The walk of the tables, where the directory has a table and the table a present page.
walk :
    (v table page : ℕ) (s : Vmm)
    → has_table v s ≢ 0
    → table_of v s ≡ table
    → s.memory (entry table (pt_index v)) ≡ page
    → page % 2 ≡ 1
    → page < 2 ^ 32
    → get_physical_address v s ≡ page / 4096 * 4096 + v % 4096
unfolding get_physical_address
walk v table page s some_table at here odd small =
    let present : (has_table v s == 0) ≡ false = ground arith in
    let valid : (bit_and page 1 == 0) ≡ false = ground (arith, and-one page) in
    rw (present, at, here, valid, and-page_mask page small, and-offset v) (omega arith)

-- The directory and the page table of a virtual address stand in different pages.
abbrev pub Apart : Vmm → ℕ → Type 0
Apart s table =
    (table % 4096 ≡ 0) × (s.current_directory % 4096 ≡ 0) × (table ≢ s.current_directory)

translate-set_page :
    (v p flags : ℕ) (s : Vmm)
    → v < 2 ^ 32
    → p < 2 ^ 32
    → flags < 4096
    → flags % 2 ≡ 1
    → has_table v s ≢ 0
    → Apart s (table_of v s)
    → get_physical_address v (set_page v p flags s) ≡ p / 4096 * 4096 + v % 4096
unfolding set_page table_of
translate-set_page v p flags s hv hp hf odd present (aligned, dir, ne) =
    let page = bit_or (bit_and p 0xffff_f000) flags in
    let place = entry (table_of v s) (pt_index v) in
    let same : (set_page v p flags s).memory (entry s.current_directory (pd_index v))
        ≡ s.memory (entry s.current_directory (pd_index v)) =
      update_ne s.memory place page (entry s.current_directory (pd_index v))
        (entries_apart v (table_of v s) s.current_directory hv aligned dir ne) in
    let value = page_entry p flags hp hf in
    let found =
      walk v (table_of v s) page (set_page v p flags s) (rw same present)
        (ap (λ w. bit_and w 0xffff_f000) same) (update_self s.memory place page) (omega arith)
        (omega arith) in
    omega (arith, found)

-- The new page table: the directory names it, and it is present.
pub new_table_lem :
    (v flags : ℕ) (s : Vmm)
    → v < 2 ^ 32
    → flags < 4096
    → (alloc_frame s.frames).0 < 2 ^ 32
    → Apart s (alloc_frame s.frames).0
    → (has_table v (new_table v flags s) ≢ 0)
      × (table_of v (new_table v flags s) ≡ (alloc_frame s.frames).0)
      × Apart (new_table v flags s) (alloc_frame s.frames).0
unfolding new_table table_of
new_table_lem v flags s hv hf small (aligned, dir, ne) =
    let a = (alloc_frame s.frames).0 in
    let e = entry s.current_directory (pd_index v) in
    let word = bit_or (bit_or (bit_or a 1) 2) flags in
    let (page, odd) = table_entry (a / 4096) flags hf in
    let whole : a / 4096 * 4096 ≡ a = omega arith in
    let page' : word / 4096 ≡ a / 4096 = rw whole at page in
    let odd' : word % 2 ≡ 1 = rw whole at odd in
    let kept : (new_table v flags s).memory e ≡ word =
      clear_entries_lem 1024 0 a (update s.memory e word) e (ground arith)
      ∙ update_self s.memory e word in
    (
      rw kept (omega (arith, and-one word)),
      rw kept (omega (arith, and-page_mask word (omega arith))),
      (aligned, dir, ne),
    )

-- The page table that `map_page` writes to.
abbrev pub table_for : ℕ → Vmm → ℕ
table_for v s = if has_table v s == 0 then (alloc_frame s.frames).0 else table_of v s

-- For 32-bit addresses and flags below 4096 that have the present bit, where the page table that
-- the page goes to, found or newly allocated, lies at a page boundary below 2^32 and not on the
-- directory, which lies at one too, `vmm_get_physical_address` after `vmm_map_page` is the frame
-- mapped to, with the offset of the virtual address.
pub get_physical_address-map_page :
    (v p flags : ℕ) (s : Vmm)
    → v < 2 ^ 32
    → p < 2 ^ 32
    → flags < 4096
    → flags % 2 ≡ 1
    → table_for v s < 2 ^ 32
    → Apart s (table_for v s)
    → get_physical_address v (map_page v p flags s) ≡ p / 4096 * 4096 + v % 4096
unfolding map_page
get_physical_address-map_page v p flags s hv hp hf odd small apart =
    elim (Bool-cases (has_table v s == 0)) [
      | inl absent ↦
          let small' : (alloc_frame s.frames).0 < 2 ^ 32 = rw absent at small in
          let apart' : Apart s (alloc_frame s.frames).0 = rw absent at apart in
          let (present, at, apart_there) = new_table_lem v flags s hv hf small' apart' in
          rw absent (
            translate-set_page v p flags (new_table v flags s) hv hp hf odd present
              (rw at apart_there))
      | inr there ↦
          let apart' : Apart s (table_of v s) = rw there at apart in
          rw there (translate-set_page v p flags s hv hp hf odd (ground arith) apart')
    ]

-- For a 32-bit address, where its page table, if it has one, lies at a page boundary and not on
-- the directory, which lies at one too, `vmm_get_physical_address` after `vmm_unmap_page` is 0.
pub get_physical_address-unmap_page :
    (v : ℕ) (s : Vmm)
    → v < 2 ^ 32
    → (has_table v s ≢ 0 → Apart s (table_of v s))
    → get_physical_address v (unmap_page v s) ≡ 0
unfolding get_physical_address unmap_page table_of
get_physical_address-unmap_page v s hv apart = elim (Bool-cases (has_table v s == 0)) [
  | inl absent ↦ rw (absent, absent) refl
  | inr there ↦
      let (aligned, dir, ne) = apart (ground arith) in
      let e = entry s.current_directory (pd_index v) in
      let place = entry (table_of v s) (pt_index v) in
      let same : update s.memory place 0 e ≡ s.memory e =
        update_ne s.memory place 0 e
          (entries_apart v (table_of v s) s.current_directory hv aligned dir ne) in
      rw (there, same, there, update_self s.memory place 0) refl
]
