-- ===== src/Memory/Vmm/Mapping.antt =====
-- `vmm_map_page` as a whole.
use munux.Common.{
  ℕ, ◌+◌, ◌*◌, ◌/◌, ◌%◌, ◌^◌, ◌<◌, ◌≡◌, ◌≢◌, sym, ◌∙◌, inl, inr, ◌==◌, arith, Bool-cases,
}
use munux.Memory.Pmm.{alloc_frame}
use munux.Memory.Pmm.Find.{used}
use munux.Memory.Pmm.Alloc.{alloc_frame-IsValid}
use munux.Memory.Vmm.{Vmm, pd_index, table_of, has_table, new_table, map_page, get_physical_address}
use munux.Memory.Vmm.Translate.{Apart, new_table_lem, table_for, get_physical_address-map_page}
use munux.Memory.Vmm.Others.{get_physical_address-map_other}
use munux.Memory.Vmm.Invariant.{
  IsPaged, TakesFrame, alloc_frame-TakesFrame, set_page-IsPaged, alloc_frame-Apart, alloc_frame_ne,
  tables-new_table,
}

new_table-IsPaged :
    (v flags : ℕ) (s : Vmm)
    → v < 2 ^ 32
    → flags < 4096
    → IsPaged s
    → TakesFrame s.frames
    → IsPaged (new_table v flags s)
unfolding new_table
new_table-IsPaged v flags s hv hf i fresh = record {
  frames = alloc_frame-IsValid i.frames;
  aligned = i.aligned;
  dir_used = still _ i.dir_used;
  tables = λ w hw there. elim (tables-new_table v w flags s hv hw hf i fresh) [
    | inl (_, at) ↦ rw at (alloc_frame-Apart i fresh, fresh.1, marked)
    | inr (_, at, had) ↦
        let (apart, small, in_use) = i.tables w hw (rw had at there) in
        rw at (apart, small, still _ in_use)
  ];
  distinct = λ w x hw hx tw tx ne. elim (tables-new_table v w flags s hv hw hf i fresh) [
    | inl (same, at) ↦ elim (tables-new_table v x flags s hv hx hf i fresh) [
      | inl (same', at') ↦ absurd (ne (sym same ∙ same'))
      | inr (_, at', had) ↦ rw (at, at') (alloc_frame_ne x hx i fresh (rw had at tx))
    ]
    | inr (_, at, had) ↦ elim (tables-new_table v x flags s hv hx hf i fresh) [
      | inl (same', at') ↦ rw (at, at') (λ e. alloc_frame_ne w hw i fresh (rw had at tw) (sym e))
      | inr (_, at', had') ↦ rw (at, at') (i.distinct w x hw hx (rw had at tw) (rw had' at tx) ne)
    ]
  ];
}
  where
    still : (g : ℕ) → used s.frames.bitmap g ≡ 1 → used (alloc_frame s.frames).1.bitmap g ≡ 1
    still g h = ground (arith, fresh.3 g)

    marked : used (alloc_frame s.frames).1.bitmap ((alloc_frame s.frames).0 / 4096) ≡ 1
    marked = ground (arith, fresh.3 ((alloc_frame s.frames).0 / 4096))

-- `vmm_map_page`, where the tables are well-formed and a frame is left if a new table is needed.
-- For 32-bit addresses and flags below 4096 with the present bit the tables stay well-formed, the
-- page leads to the frame, and every other page leads to where it led.
pub map_page_lem :
    (v p flags : ℕ) (s : Vmm)
    → v < 2 ^ 32
    → p < 2 ^ 32
    → flags < 4096
    → flags % 2 ≡ 1
    → IsPaged s
    → (has_table v s ≡ 0 → (alloc_frame s.frames).0 ≢ 0)
    → IsPaged (map_page v p flags s)
      × (get_physical_address v (map_page v p flags s) ≡ p / 4096 * 4096 + v % 4096)
      × ((w : ℕ)
          → w < 2 ^ 32
          → v / 4096 ≢ w / 4096
          → get_physical_address w (map_page v p flags s) ≡ get_physical_address w s)
unfolding map_page
map_page_lem v p flags s hv hp hf odd i enough = (
  elim (Bool-cases (has_table v s == 0)) [
    | inl absent ↦
        let fresh = alloc_frame-TakesFrame i.frames (enough (ground arith)) in
        let (present, _, _) = new_table_lem v flags s hv hf fresh.1 (alloc_frame-Apart i fresh) in
        rw absent (
          set_page-IsPaged v p flags (new_table v flags s) hv present
            (new_table-IsPaged v flags s hv hf i fresh))
    | inr there ↦ rw there (set_page-IsPaged v p flags s hv (ground arith) i)
  ],
  get_physical_address-map_page v p flags s hv hp hf odd place.1 place.0,
  λ w hw ne. get_physical_address-map_other v w p flags s hv hw ne hf place.1 (record {
    of_mapped = place.0;
    of_other = λ there. (i.tables w hw there).0;
    distinct = place.2 w hw;
  }),
)
  where
    place :
        Apart s (table_for v s)
        × (table_for v s < 2 ^ 32)
        × ((w : ℕ)
            → w < 2 ^ 32
            → has_table w s ≢ 0
            → pd_index v ≢ pd_index w
            → table_for v s ≢ table_of w s)
    place = elim (Bool-cases (has_table v s == 0)) [
      | inl absent ↦
          let fresh = alloc_frame-TakesFrame i.frames (enough (ground arith)) in
          rw absent
            (alloc_frame-Apart i fresh, fresh.1, λ w hw there _. alloc_frame_ne w hw i fresh there)
      | inr there ↦
          let (apart, small, _) = i.tables v hv (ground arith) in
          rw there (apart, small, λ w hw t ne. i.distinct v w hv hw (ground arith) t ne)
    ]
