-- ===== src/Memory/Vmm/Frames.antt =====
-- What a step of the paging leaves of the frames in use.
use munux.Common.{ℕ, ◌≡◌, ◌≢◌, refl, inl, inr, ◌==◌, arith, Bool-cases}
use munux.Memory.Pmm.{Pmm, alloc_frame}
use munux.Memory.Pmm.Find.{used}
use munux.Memory.Pmm.Alloc.{alloc_frame-IsValid}
use munux.Memory.Vmm.{Vmm, has_table, new_table, set_page, map_page, table_of, get_physical_address}
use munux.Memory.Vmm.Invariant.{IsPaged, TakesFrame, alloc_frame-TakesFrame}

-- A frame that is free after was free before, and one in use before is in use after.
abbrev pub Grows : Pmm → Pmm → Type 0
Grows s t =
    ((g : ℕ) → used t.bitmap g ≡ 0 → used s.bitmap g ≡ 0)
    × ((g : ℕ) → used s.bitmap g ≡ 1 → used t.bitmap g ≡ 1)

pub Grows-alloc_frame : (s : Pmm) → TakesFrame s → Grows s (alloc_frame s).1
Grows-alloc_frame s (_, _, _, marks) =
    (λ g h. ground (arith, marks g), λ g h. ground (arith, marks g))

pub Grows-trans : (s t u : Pmm) → Grows s t → Grows t u → Grows s u
Grows-trans s t u f g = (λ x h. f.0 x (g.0 x h), λ x h. g.1 x (f.1 x h))

-- The frame of the page is marked before the page is mapped.
pub frame_taken :
    (s : Vmm)
    → IsPaged s
    → TakesFrame s.frames
    → IsPaged (record s { frames = (alloc_frame s.frames).1 })
unfolding table_of
frame_taken s i takes =
    let grows = Grows-alloc_frame s.frames takes in
    record {
      frames = alloc_frame-IsValid i.frames;
      aligned = i.aligned;
      dir_used = grows.1 _ i.dir_used;
      tables = λ w h there.
          let (apart, small, in_use) = i.tables w h there in (apart, small, grows.1 _ in_use);
      distinct = i.distinct;
    }

pub Grows-map_page :
    (v p flags : ℕ) (s : Vmm)
    → IsPaged s
    → (alloc_frame s.frames).0 ≢ 0
    → Grows s.frames (map_page v p flags s).frames
unfolding map_page set_page new_table
Grows-map_page v p flags s i found = elim (Bool-cases (has_table v s == 0)) [
  | inl absent ↦ rw absent (Grows-alloc_frame s.frames (alloc_frame-TakesFrame i.frames found))
  | inr there ↦ rw there (λ g h. h, λ g h. h)
]

-- The translation does not read the allocator.
pub get_physical_address-frames :
    (w : ℕ) (s : Vmm) (f : Pmm)
    → get_physical_address w (record s { frames = f }) ≡ get_physical_address w s
unfolding get_physical_address table_of
get_physical_address-frames w s f = refl
