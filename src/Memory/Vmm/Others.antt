-- ===== src/Memory/Vmm/Others.antt =====
-- Mapping a page leaves the translation of every other page as it was.
use munux.Common.{
  ℕ, ◌/◌, ◌^◌, ◌<◌, ◌≡◌, ◌≢◌, refl, ap, sym, ◌∙◌, ◌⊎◌, inl, inr, bit_and, bit_or, ◌==◌, arith,
  Bool-cases,
}
use munux.Common.Memory.{update_ne}
use munux.Memory.Pmm.{alloc_frame}
use munux.Memory.Vmm.{
  Vmm, pd_index, pt_index, entry, table_of, has_table, new_table, set_page, map_page,
  get_physical_address,
}
use munux.Memory.Vmm.Translate.{Apart, new_table_lem, table_for}
use munux.Common.Masks.{and-index}
use munux.Memory.Vmm.Words.{
  entry_ne, pt_index_lt, pd_index_lt, same_words, clear_entries_zero, new_table-word, same_table,
  no_table, no_page,
}

-- The tables of the page to map and of another address stand apart from the directory, and from
-- each other if they belong to different entries of it.
pub record Separate (v w : ℕ) (s : Vmm) : Type 0 where
  pub of_mapped : Apart s (table_for v s)
  pub of_other : has_table w s ≢ 0 → Apart s (table_of w s)
  pub distinct : has_table w s ≢ 0 → pd_index v ≢ pd_index w → table_for v s ≢ table_of w s

-- The store of `set_page`, for a page whose table is there.
other-set_page :
    (v w p flags : ℕ) (s : Vmm)
    → v < 2 ^ 32
    → w < 2 ^ 32
    → v / 4096 ≢ w / 4096
    → Apart s (table_of v s)
    → (has_table w s ≢ 0 → Apart s (table_of w s))
    → (has_table w s ≢ 0 → pd_index v ≢ pd_index w → table_of v s ≢ table_of w s)
    → get_physical_address w (set_page v p flags s) ≡ get_physical_address w s
unfolding set_page
other-set_page v w p flags s hv hw ne (aligned, dir, off) other distinct =
    let place = entry (table_of v s) (pt_index v) in
    let word = bit_or (bit_and p 0xffff_f000) flags in
    let apart : (pd_index v ≢ pd_index w) ⊎ (pt_index v ≢ pt_index w) =
      ground (arith, and-index (v / 2 ^ 12), and-index (w / 2 ^ 12)) in
    same_words w s (set_page v p flags s) refl
      (update_ne s.memory place word _ (
        entry_ne s.current_directory (table_of v s) (pd_index w) (pt_index v) dir aligned
          (pd_index_lt w hw) (pt_index_lt v) (inl (λ e. off (sym e)))))
      (λ there.
        let (aligned', _, _) = other there in
        update_ne s.memory place word _ (
          entry_ne (table_of w s) (table_of v s) (pt_index w) (pt_index v) aligned' aligned
            (pt_index_lt w) (pt_index_lt v)
            (elim apart [
              | inl up ↦ inl (λ e. distinct there up (sym e))
              | inr low ↦ inr (λ e. low (sym e))
            ])))

-- An address under another entry of the directory.
other-new_table :
    (v w p flags : ℕ) (s : Vmm)
    → v < 2 ^ 32
    → w < 2 ^ 32
    → flags < 4096
    → (alloc_frame s.frames).0 < 2 ^ 32
    → Apart s (alloc_frame s.frames).0
    → pd_index v ≢ pd_index w
    → (has_table w s ≢ 0 → Apart s (table_of w s))
    → (has_table w s ≢ 0 → (alloc_frame s.frames).0 ≢ table_of w s)
    → get_physical_address w (set_page v p flags (new_table v flags s)) ≡ get_physical_address w s
unfolding table_of new_table
other-new_table v w p flags s hv hw hf small (aligned, dir, off) up other distinct =
    let a = (alloc_frame s.frames).0 in
    let t = new_table v flags s in
    let (present, at, apart) = new_table_lem v flags s hv hf small (aligned, dir, off) in
    let top : t.memory (entry s.current_directory (pd_index w))
        ≡ s.memory (entry s.current_directory (pd_index w)) =
      new_table-word v flags s.current_directory (pd_index w) s (pd_index_lt w hw) dir aligned off
        (omega arith) in
    let page : has_table w s ≢ 0
        → t.memory (entry (table_of w s) (pt_index w))
          ≡ s.memory (entry (table_of w s) (pt_index w)) =
      λ there.
        let (aligned', _, off') = other there in
        new_table-word v flags (table_of w s) (pt_index w) s (pt_index_lt w) aligned' aligned
          (distinct there)
          (entry_ne (table_of w s) s.current_directory (pt_index w) (pd_index v) aligned' dir
            (pt_index_lt w) (pd_index_lt v hv) (inl off')) in
    let found : table_of w t ≡ table_of w s = ap (λ x. bit_and x 0xffff_f000) top in
    let had : has_table w t ≡ has_table w s = ap (λ x. bit_and x 1) top in
    let mapped : Apart t (table_of v t) = rw at apart in
    other-set_page v w p flags t hv hw (omega arith) mapped
      (λ there. rw found (other (rw had at there)))
      (λ there _. rw (at, found) (distinct (rw had at there)))
    ∙ same_words w s t refl top page

-- An address under the same entry of the directory has no page before, and none in the new table.
beside-new_table :
    (v w p flags : ℕ) (s : Vmm)
    → v < 2 ^ 32
    → w < 2 ^ 32
    → flags < 4096
    → v / 4096 ≢ w / 4096
    → (alloc_frame s.frames).0 < 2 ^ 32
    → Apart s (alloc_frame s.frames).0
    → pd_index v ≡ pd_index w
    → has_table v s ≡ 0
    → get_physical_address w (set_page v p flags (new_table v flags s)) ≡ get_physical_address w s
unfolding new_table
beside-new_table v w p flags s hv hw hf ne small apart same none_yet =
    let a = (alloc_frame s.frames).0 in
    let t = new_table v flags s in
    let (present, at, apart') = new_table_lem v flags s hv hf small apart in
    let here : table_of w t ≡ a = sym (same_table v w t same).0 ∙ at in
    let there : has_table w t ≢ 0 = λ e. present ((same_table v w t same).1 ∙ e) in
    let mapped : Apart t (table_of v t) = rw at apart' in
    let none_there : get_physical_address w s ≡ 0 =
      no_table w s (sym (same_table v w s same).1 ∙ none_yet) in
    let none_here : get_physical_address w t ≡ 0 =
      no_page w a t there here
        (clear_entries_zero 1024 0 a (pt_index w) _ (omega arith) (omega (arith, pt_index_lt w))) in
    other-set_page v w p flags t hv hw ne mapped (λ _. rw here apart') (λ _ up. absurd (up same))
    ∙ none_here
    ∙ sym none_there

-- For 32-bit addresses of different pages, and flags below 4096, where the page tables of the page to map, found or
-- newly allocated, and of the other address stand apart from the directory and from each other,
-- `vmm_map_page` leaves what `vmm_get_physical_address` gives for the other address as it was.
pub get_physical_address-map_other :
    (v w p flags : ℕ) (s : Vmm)
    → v < 2 ^ 32
    → w < 2 ^ 32
    → v / 4096 ≢ w / 4096
    → flags < 4096
    → table_for v s < 2 ^ 32
    → Separate v w s
    → get_physical_address w (map_page v p flags s) ≡ get_physical_address w s
unfolding map_page
get_physical_address-map_other v w p flags s hv hw ne hf small apart =
    elim (Bool-cases (has_table v s == 0)) [
      | inl absent ↦
          let small' : (alloc_frame s.frames).0 < 2 ^ 32 = rw absent at small in
          let apart' : Apart s (alloc_frame s.frames).0 = rw absent at apart.of_mapped in
          rw absent (elim (Bool-cases (pd_index v == pd_index w)) [
            | inl same ↦
                beside-new_table v w p flags s hv hw hf ne small' apart' (ground arith)
                  (ground arith)
            | inr up ↦
                other-new_table v w p flags s hv hw hf small' apart' (ground arith) apart.of_other
                  (λ there. rw absent at (apart.distinct there (ground arith)))
          ])
      | inr there ↦
          let apart' : Apart s (table_of v s) = rw there at apart.of_mapped in
          rw there (
            other-set_page v w p flags s hv hw ne apart' apart.of_other
              (λ h up. rw there at (apart.distinct h up)))
    ]
