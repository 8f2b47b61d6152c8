-- ===== src/Memory/Vmm/Invariant.antt =====
-- The directory and its page tables stand in different frames in use, and `vmm_map_page` keeps this.
use munux.Common.{
  ℕ, ◌/◌, ◌%◌, ◌^◌, ◌<◌, ◌≡◌, ◌≢◌, ap, sym, ◌∙◌, ◌⊎◌, inl, inr, bit_and, ◌==◌, if◌then◌else◌, arith,
  Bool-cases,
}
use munux.Common.Memory.{Memory, update_ne}
use munux.Memory.Pmm.{Pmm, alloc_frame}
use munux.Memory.Pmm.Find.{used, IsValid, tracked_small}
use munux.Memory.Pmm.Alloc.{alloc_frame_lem}
use munux.Memory.Vmm.{Vmm, pd_index, pt_index, entry, table_of, has_table, new_table, set_page}
use munux.Memory.Vmm.Translate.{Apart, new_table_lem}
use munux.Memory.Vmm.Words.{entry_ne, pt_index_lt, pd_index_lt, new_table-word, same_table}

pub record IsPaged (s : Vmm) : Type 0 where
  pub frames : IsValid s.frames
  pub aligned : s.current_directory % 4096 ≡ 0
  pub dir_used : used s.frames.bitmap (s.current_directory / 4096) ≡ 1
  pub tables :
      (w : ℕ)
      → w < 2 ^ 32
      → has_table w s ≢ 0
      → Apart s (table_of w s)
        × (table_of w s < 2 ^ 32)
        × (used s.frames.bitmap (table_of w s / 4096) ≡ 1)
  pub distinct :
      (v w : ℕ)
      → v < 2 ^ 32
      → w < 2 ^ 32
      → has_table v s ≢ 0
      → has_table w s ≢ 0
      → pd_index v ≢ pd_index w
      → table_of v s ≢ table_of w s

-- What a call of `pmm_alloc_frame` that finds a frame does.
abbrev pub TakesFrame : Pmm → Type 0
TakesFrame s =
    let a = (alloc_frame s).0 in
    (a % 4096 ≡ 0)
    × (a < 2 ^ 32)
    × (used s.bitmap (a / 4096) ≡ 0)
    × ((g : ℕ) → used (alloc_frame s).1.bitmap g ≡ (if g == a / 4096 then 1 else used s.bitmap g))

pub alloc_frame-TakesFrame : {s : Pmm} → IsValid s → (alloc_frame s).0 ≢ 0 → TakesFrame s
alloc_frame-TakesFrame {s} v got = elim (alloc_frame_lem v) [
  | inl (none_left, _, _) ↦ absurd (got none_left)
  | inr (f, addr, _, up, free, _, marks, _, _) ↦
      let frame : (alloc_frame s).0 / 4096 ≡ f = omega (arith, addr) in
      (omega (arith, addr), omega (arith, addr, up, tracked_small v), rw frame free, rw frame marks)
]

-- A store outside the directory.
same_tables :
    (s : Vmm) (m : Memory)
    → ((w : ℕ)
        → w < 2 ^ 32
        → m (entry s.current_directory (pd_index w))
          ≡ s.memory (entry s.current_directory (pd_index w)))
    → IsPaged s
    → IsPaged (record s { memory = m })
unfolding table_of
same_tables s m same p = record {
  frames = p.frames;
  aligned = p.aligned;
  dir_used = p.dir_used;
  tables = λ w h there. rw (same w h) (p.tables w h (rw (same w h) at there));
  distinct = λ v w hv hw tv tw ne.
      rw (same v hv, same w hw)
        (p.distinct v w hv hw (rw (same v hv) at tv) (rw (same w hw) at tw) ne);
}

pub set_page-IsPaged :
    (v p flags : ℕ) (s : Vmm)
    → v < 2 ^ 32
    → has_table v s ≢ 0
    → IsPaged s
    → IsPaged (set_page v p flags s)
unfolding set_page
set_page-IsPaged v p flags s hv there i =
    let ((aligned, dir, off), _, _) = i.tables v hv there in
    same_tables s _
      (λ w hw. update_ne s.memory (entry (table_of v s) (pt_index v)) _ _ (
        entry_ne s.current_directory (table_of v s) (pd_index w) (pt_index v) dir aligned
          (pd_index_lt w hw) (pt_index_lt v) (inl (λ e. off (sym e)))))
      i

-- The new table is apart from the directory and from the tables there are.
pub alloc_frame-Apart :
    {s : Vmm} → IsPaged s → TakesFrame s.frames → Apart s (alloc_frame s.frames).0
alloc_frame-Apart {s} i (aligned, _, free, _) = (
  aligned,
  i.aligned,
  λ e.
      let same = ap (λ x. used s.frames.bitmap (x / 4096)) e in
      omega (arith, free, same, i.dir_used),
)

pub alloc_frame_ne :
    {s : Vmm} (w : ℕ)
    → w < 2 ^ 32
    → IsPaged s
    → TakesFrame s.frames
    → has_table w s ≢ 0
    → (alloc_frame s.frames).0 ≢ table_of w s
alloc_frame_ne {s} w hw i (_, _, free, _) there e =
    let same = ap (λ x. used s.frames.bitmap (x / 4096)) e in
    omega (arith, free, same, (i.tables w hw there).2)

-- The tables after a new one was made for `v`.
pub tables-new_table :
    (v w flags : ℕ) (s : Vmm)
    → v < 2 ^ 32
    → w < 2 ^ 32
    → flags < 4096
    → IsPaged s
    → TakesFrame s.frames
    → ((pd_index v ≡ pd_index w) × (table_of w (new_table v flags s) ≡ (alloc_frame s.frames).0))
      ⊎ ((pd_index v ≢ pd_index w)
          × (table_of w (new_table v flags s) ≡ table_of w s)
          × (has_table w (new_table v flags s) ≡ has_table w s))
unfolding table_of new_table
tables-new_table v w flags s hv hw hf i fresh =
    let t = new_table v flags s in
    let (aligned, dir, off) = alloc_frame-Apart i fresh in
    let (_, at, _) = new_table_lem v flags s hv hf fresh.1 (aligned, dir, off) in
    elim (Bool-cases (pd_index v == pd_index w)) [
      | inl same ↦
          let e : pd_index v ≡ pd_index w = ground arith in inl (e, sym (same_table v w t e).0 ∙ at)
      | inr up ↦
          let ne : pd_index v ≢ pd_index w = ground arith in
          let top : t.memory (entry s.current_directory (pd_index w))
              ≡ s.memory (entry s.current_directory (pd_index w)) =
            new_table-word v flags s.current_directory (pd_index w) s (pd_index_lt w hw) dir aligned
              off (omega arith) in
          inr (ne, ap (λ x. bit_and x 0xffff_f000) top, ap (λ x. bit_and x 1) top)
    ]
