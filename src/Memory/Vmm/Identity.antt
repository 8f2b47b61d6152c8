-- ===== src/Memory/Vmm/Identity.antt =====
-- `vmm_init` maps the first 8 MiB to themselves.
use munux.Common.{
  ℕ, zero, suc, ◌+◌, ◌*◌, ◌/◌, ◌%◌, ◌^◌, ◌≤◌, ◌<◌, ◌≡◌, ◌≢◌, refl, ap, inl, inr, bit_and, ◌&&◌, ltb,
  leb, bit_or, ◌==◌, if◌then◌else◌, arith, Bool-cases,
}
use munux.Memory.Pmm.{Pmm, alloc_frame}
use munux.Memory.Pmm.Find.{used, tracked, IsValid}
use munux.Memory.Pmm.Count.{tracked-cong}
use munux.Memory.Pmm.Alloc.{alloc_frame_lem, alloc_frame-IsValid}
use munux.Memory.Vmm.{
  Vmm, pd_index, pt_index, entry, clear_entries, table_of, has_table, new_table, set_page, map_page,
  map_identity, get_physical_address, init,
}
use munux.Memory.Vmm.Words.{pd_index_lt, clear_entries_zero, no_table}
use munux.Memory.Vmm.Invariant.{IsPaged, alloc_frame-TakesFrame}
use munux.Memory.Vmm.Mapping.{map_page_lem}

-- From some frame on, at least `n` frames are all free, and the first 2 MiB are in use.
abbrev pub Room : ℕ → Pmm → Type 0
Room n s =
    (lo : ℕ) × (lo + n ≤ tracked s)
    × ((g : ℕ) → lo ≤ g → g < tracked s → used s.bitmap g ≡ 0)
    × ((g : ℕ) → g < 512 → used s.bitmap g ≡ 1)

pub Room-alloc_frame :
    (n : ℕ) (s : Pmm)
    → IsValid s
    → Room (suc n) s
    → ((alloc_frame s).0 ≢ 0) × Room n (alloc_frame s).1
unfolding tracked
Room-alloc_frame n s v (lo, room, free, kernel) = elim (alloc_frame_lem v) [
  | inl (_, _, full) ↦
      absurd (omega (arith, full lo (omega arith), free lo (omega arith) (omega arith)))
  | inr (f, addr, pos, up, hole, low, marks, _, total) ↦
      let same = tracked-cong s (alloc_frame s).1 total in
      let below : f ≤ lo = ground (arith, low lo, free lo) in
      (
        omega (arith, addr),
        (
          lo + 1,
          omega (arith, same),
          λ g l h. ground (arith, marks g, free g (omega arith), same),
          λ g l. ground (arith, marks g, kernel g l),
        ),
      )
]

-- Where there is room for one more, `vmm_map_page` finds the frame that it may need, and takes one
-- at most.
pub Room-map_page :
    (n v p flags : ℕ) (s : Vmm)
    → IsValid s.frames
    → Room (suc n) s.frames
    → ((alloc_frame s.frames).0 ≢ 0) × Room n (map_page v p flags s).frames
unfolding map_page set_page new_table
Room-map_page n v p flags s valid room =
    let (found, later) = Room-alloc_frame n s.frames valid room in
    let (lo, fits, free, kernel) = room in
    (
      found,
      elim (Bool-cases (has_table v s == 0)) [
        | inl absent ↦ rw absent later
        | inr there ↦ rw there (lo, omega arith, free, kernel)
      ],
    )

-- Addresses of one page are mapped alike.
pub map_page_alike :
    (v w p flags : ℕ) (s : Vmm) → v / 4096 ≡ w / 4096 → map_page v p flags s ≡ map_page w p flags s
unfolding map_page new_table set_page table_of
map_page_alike v w p flags s same =
    let top : pd_index v ≡ pd_index w = omega arith in
    let low : pt_index v ≡ pt_index w = ap (λ x. bit_and x 0x3ff) same in rw (top, low) refl

-- One page mapped to itself.
map_self :
    (i w : ℕ) (s : Vmm)
    → i % 4096 ≡ 0
    → i < 2 ^ 32
    → w < 2 ^ 32
    → IsPaged s
    → (alloc_frame s.frames).0 ≢ 0
    → get_physical_address w (map_page i i 3 s)
      ≡ (if w / 4096 == i / 4096 then w else get_physical_address w s)
map_self i w s hi small hw paged found = elim (Bool-cases (w / 4096 == i / 4096)) [
  | inl same ↦
      let page : i / 4096 ≡ w / 4096 = ground arith in
      let (_, here, _) = map_page_lem w i 3 s hw small (omega arith) refl paged (λ _. found) in
      rw (same, map_page_alike i w i 3 s page, here) (omega arith)
  | inr other ↦
      let (_, _, rest) = map_page_lem i i 3 s small small (omega arith) refl paged (λ _. found) in
      rw other (rest w hw (ground arith))
]

-- What the loop of `vmm_init` maps, from well-formed tables and with room for a frame each round.
map_identity_lem :
    (n k i : ℕ) (s : Vmm)
    → i % 4096 ≡ 0
    → i + 4096 * n ≤ 2 ^ 32
    → IsPaged s
    → Room (n + k) s.frames
    → IsPaged (map_identity n i s)
      × Room k (map_identity n i s).frames
      × ((w : ℕ)
          → w < 2 ^ 32
          → get_physical_address w (map_identity n i s)
            ≡ (if leb i w && ltb w (i + 4096 * n) then w else get_physical_address w s))
unfolding map_identity
map_identity_lem zero k i s hi hn p room =
    let e : 0 + k ≡ k = omega arith in (p, rw e at room, λ w h. ground arith)
map_identity_lem (suc n) k i s hi hn p room =
    let e : suc n + k ≡ suc (n + k) = omega arith in
    let t = map_page i i (bit_or 1 2) s in
    let (found, later) = Room-map_page (n + k) i i (bit_or 1 2) s p.frames (rw e at room) in
    let (paged, _, _) =
      map_page_lem i i 3 s (omega arith) (omega arith) (omega arith) refl p (λ _. found) in
    let (rest_paged, rest_room, rest) =
      map_identity_lem n k (i + 4096) t (omega arith) (omega arith) paged later in
    (
      rest_paged,
      rest_room,
      λ w h. ground (arith, rest w h, map_self i w s hi (omega arith) h p found),
    )

-- The state of `vmm_init` before its loop: a directory that was just cleared.
abbrev pub blank_directory : Vmm → Vmm
blank_directory s = record {
  memory = clear_entries 1024 0 (alloc_frame s.frames).0 s.memory;
  kernel_directory = (alloc_frame s.frames).0;
  current_directory = (alloc_frame s.frames).0;
  frames = (alloc_frame s.frames).1;
}

pub blank_directory-IsPaged :
    (s : Vmm)
    → IsValid s.frames
    → (alloc_frame s.frames).0 ≢ 0
    → IsPaged (blank_directory s) × ((w : ℕ) → w < 2 ^ 32 → has_table w (blank_directory s) ≡ 0)
blank_directory-IsPaged s v found =
    let (aligned, _, _, marks) = alloc_frame-TakesFrame v found in
    let pd = (alloc_frame s.frames).0 in
    let none_yet : (w : ℕ)
        → w < 2 ^ 32
        → bit_and (clear_entries 1024 0 pd s.memory (entry pd (pd_index w))) 1 ≡ 0 =
      λ w h.
        ap (λ x. bit_and x 1)
          (clear_entries_zero 1024 0 pd (pd_index w) s.memory (omega arith)
            (omega (arith, pd_index_lt w h))) in
    (
      record {
        frames = alloc_frame-IsValid v;
        aligned = aligned;
        dir_used = ground (arith, marks (pd / 4096));
        tables = λ w h there. absurd (there (none_yet w h));
        distinct = λ w x h _ there _ _. absurd (there (none_yet w h));
      },
      none_yet,
    )

-- With a valid frame allocator and 2050 frames and more free in a row, `vmm_init` leaves
-- well-formed tables in which the first 8 MiB lead to themselves, and no other address is mapped;
-- it takes 2050 frames at most.
pub init_identity :
    (k : ℕ) (s : Vmm)
    → IsValid s.frames
    → Room (suc (2048 + suc k)) s.frames
    → IsPaged (init s)
      × Room k (init s).frames
      × ((w : ℕ)
          → w < 2 ^ 32
          → get_physical_address w (init s) ≡ (if ltb w 0x80_0000 then w else 0))
unfolding init
init_identity k s v room =
    let (found, later) = Room-alloc_frame (2048 + suc k) s.frames v room in
    let (paged, none_yet) = blank_directory-IsPaged s v found in
    let start = blank_directory s in
    let looped = map_identity 2048 0 start in
    let (mapped, rest_room, rest) =
      map_identity_lem 2048 (suc k) 0 start (omega arith) (omega arith) paged later in
    let (found', last_room) = Room-map_page k 0xb8000 0xb8000 3 looped mapped.frames rest_room in
    let (all, _, _) =
      map_page_lem 0xb8000 0xb8000 3 looped (omega arith) (omega arith) (omega arith) refl mapped
        (λ _. found') in
    (
      all,
      last_room,
      λ w h. ground (
        arith,
        rest w h,
        map_self 0xb8000 w looped refl (omega arith) h mapped found',
        no_table w start (none_yet w h),
      ),
    )
