-- ===== src/Memory/Heap/Mapped.antt =====
-- The pages that the heap takes: each gets a frame of its own that nothing else uses.
use munux.Common.{
  ℕ, zero, suc, ◌+◌, ◌*◌, ◌/◌, ◌%◌, ◌^◌, ◌≤◌, ◌<◌, ◌≡◌, ◌≢◌, refl, ap, sym, ◌∙◌, ◌⊎◌, inl, inr, ltb,
  ◌==◌, true, false, if◌then◌else◌, arith, Bool-cases,
}
use munux.Memory.Pmm.{alloc_frame}
use munux.Memory.Pmm.Find.{used}
use munux.Memory.Vmm.{Vmm, map_page, get_physical_address}
use munux.Memory.Vmm.Invariant.{IsPaged, alloc_frame-TakesFrame}
use munux.Memory.Vmm.Mapping.{map_page_lem}
use munux.Memory.Vmm.Identity.{Room, Room-alloc_frame, Room-map_page, map_page_alike}
use munux.Memory.Vmm.Frames.{
  Grows, Grows-alloc_frame, Grows-trans, frame_taken, Grows-map_page, get_physical_address-frames,
}
use munux.Memory.Heap.{map_frame}
use munux.Memory.Heap.Grow.{map_frames}

-- What mapping the page at `from` does.
pub map_frame_lem :
    (n from : ℕ) (s : Vmm)
    → from % 4096 ≡ 0
    → from < 2 ^ 32
    → IsPaged s
    → Room (suc (suc n)) s.frames
    → let t = map_frame from s in
      let frame = (alloc_frame s.frames).0 / 4096 in
      IsPaged t
      × Room n t.frames
      × Grows s.frames t.frames
      × (used s.frames.bitmap frame ≡ 0)
      × (used t.frames.bitmap frame ≡ 1)
      × ((w : ℕ)
          → w < 2 ^ 32
          → get_physical_address w t ≡ (
              if w / 4096 == from / 4096
              then frame * 4096 + w % 4096
              else get_physical_address w s))
unfolding map_frame
map_frame_lem n from s aligned small i room =
    let (found, later) = Room-alloc_frame (suc n) s.frames i.frames room in
    let takes = alloc_frame-TakesFrame i.frames found in
    let s' : Vmm = record s { frames = (alloc_frame s.frames).1 } in
    let i' = frame_taken s i takes in
    let frame = (alloc_frame s.frames).0 in
    let (found', rest) = Room-map_page n from frame 3 s' i'.frames later in
    let grows = Grows-map_page from frame 3 s' i' found' in
    let all = map_page_lem from frame 3 s' small takes.1 (omega arith) refl i' (λ _. found') in
    (
      all.0,
      rest,
      Grows-trans s.frames s'.frames (map_page from frame 3 s').frames
          (Grows-alloc_frame s.frames takes) grows,
      takes.2,
      grows.1 (frame / 4096) (ground (arith, takes.3 (frame / 4096))),
      λ w h. elim (Bool-cases (w / 4096 == from / 4096)) [
        | inl same ↦
            let page : from / 4096 ≡ w / 4096 = ground arith in
            let (_, here, _) =
              map_page_lem w frame 3 s' h takes.1 (omega arith) refl i' (λ _. found') in
            rw (same, map_page_alike from w frame 3 s' page) here
        | inr other ↦
            rw other
              (all.2 w h (ground arith) ∙ get_physical_address-frames w s (alloc_frame s.frames).1)
      ],
    )

abbrev pub Within : (n from w : ℕ) → Type 0
Within n from w = (from ≤ w) × (w < from + 4096 * n)

-- The `n` pages from `from` on lead to frames that were free and are in use, each to its own,
-- and every other address leads to where it led.
pub record Mapped (n from : ℕ) (s t : Vmm) : Type 0 where
  pub grows : Grows s.frames t.frames
  pub inside :
      (w : ℕ)
      → w < 2 ^ 32
      → Within n from w
      → (get_physical_address w t % 4096 ≡ w % 4096)
        × (used s.frames.bitmap (get_physical_address w t / 4096) ≡ 0)
        × (used t.frames.bitmap (get_physical_address w t / 4096) ≡ 1)
  pub apart :
      (v w : ℕ)
      → v < 2 ^ 32
      → w < 2 ^ 32
      → Within n from v
      → Within n from w
      → v / 4096 < w / 4096
      → get_physical_address v t / 4096 ≢ get_physical_address w t / 4096
  pub outside :
      (w : ℕ)
      → w < 2 ^ 32
      → (w < from) ⊎ (from + 4096 * n ≤ w)
      → get_physical_address w t ≡ get_physical_address w s

Mapped-suc :
    (n from : ℕ) (s t u : Vmm) (frame : ℕ)
    → from % 4096 ≡ 0
    → Grows s.frames t.frames
    → used s.frames.bitmap frame ≡ 0
    → used t.frames.bitmap frame ≡ 1
    → ((w : ℕ)
        → w < 2 ^ 32
        → get_physical_address w t
          ≡ (if w / 4096 == from / 4096 then frame * 4096 + w % 4096 else get_physical_address w s))
    → Mapped n (from + 4096) t u
    → Mapped (suc n) from s u
Mapped-suc n from s t u frame aligned grows free taken here m =
    let at_first : (w : ℕ)
        → w < 2 ^ 32
        → from ≤ w
        → w < from + 4096
        → get_physical_address w u ≡ frame * 4096 + w % 4096 =
      λ w h a b.
        m.outside w h (inl b)
        ∙ here w h
        ∙ (let e : (w / 4096 == from / 4096) ≡ true = ground arith in rw e refl) in
    record {
      grows = Grows-trans s.frames t.frames u.frames grows m.grows;
      inside = λ w h (a, b). elim (Bool-cases (ltb w (from + 4096))) [
        | inl first ↦
            let e = at_first w h a (ground arith) in
            let f : get_physical_address w u / 4096 ≡ frame = omega (arith, e) in
            (omega (arith, e), rw f free, rw f (m.grows.1 frame taken))
        | inr later ↦
            let (offset, was, is) = m.inside w h (ground arith, omega arith) in
            (offset, grows.0 _ was, is)
      ];
      apart = λ v w hv hw (a, b) (c, d) less. elim (Bool-cases (ltb v (from + 4096))) [
        | inl first ↦
            let e = at_first v hv a (ground arith) in
            let f : get_physical_address v u / 4096 ≡ frame = omega (arith, e) in
            let (_, was, _) = m.inside w hw (ground arith, omega arith) in
            λ same. omega (arith, taken, was, ap (used t.frames.bitmap) (sym f ∙ same))
        | inr later ↦ m.apart v w hv hw (ground arith, omega arith) (ground arith, omega arith) less
      ];
      outside = λ w h out.
          let other : (w / 4096 == from / 4096) ≡ false = ground arith in
          m.outside w h (ground arith) ∙ here w h ∙ (rw other refl);
    }

pub map_frames_lem :
    (n k from : ℕ) (s : Vmm)
    → from % 4096 ≡ 0
    → from + 4096 * n ≤ 2 ^ 32
    → IsPaged s
    → Room (n + n + k) s.frames
    → let t = map_frames n from s in IsPaged t × Room k t.frames × Mapped n from s t
map_frames_lem zero k from s aligned fits i room =
    let e : 0 + 0 + k ≡ k = omega arith in
    (
      i,
      rw e at room,
      record {
        grows = (λ g h. h, λ g h. h);
        inside = λ w h (a, b). absurd (omega arith);
        apart = λ v w hv hw (a, b) _ _. absurd (omega arith);
        outside = λ w h out. refl;
      },
    )
map_frames_lem (suc n) k from s aligned fits i room =
    let e : suc n + suc n + k ≡ suc (suc (n + n + k)) = omega arith in
    let (i', room', grows, free, taken, here) =
      map_frame_lem (n + n + k) from s aligned (omega arith) i (rw e at room) in
    let t = map_frame from s in
    let (done, rest, m) = map_frames_lem n k (from + 4096) t (omega arith) (omega arith) i' room' in
    (
      done,
      rest,
      Mapped-suc n from s t (map_frames n (from + 4096) t) ((alloc_frame s.frames).0 / 4096) aligned
          grows free taken here m,
    )
