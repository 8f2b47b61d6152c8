-- ===== src/Kernel/Checks/Smoke/Accepts.antt =====
-- What `rust_heap_smoke` finds out about the allocator.
use munux.Common.{
  ◌<◌, ◌≤◌, ◌≢◌, ◌≡◌, ◌⊎◌, inl, inr, refl, true, false, ℕ, ◌+◌, ◌%◌, Bool-cases, arith, some, not,
  ◌||◌, ◌==◌,
}
use munux.Common.Text.{bytes_of}
use munux.Memory.Bytes.{memset}
use munux.Memory.Bytes.Copy.{memset_lem}
use munux.Memory.Pmm.{page_size}
use munux.Memory.Heap.{Heap, kmalloc, kmalloc_aligned, kfree, kfree_aligned}
use munux.Kernel.Panic.{kernel_panic}
use munux.Kernel.Terminal.{Terminal}
use munux.Kernel.Console.{Console, show, use_color}
use munux.Kernel.Checks.{Decides}
use munux.Kernel.Checks.Smoke.{
  Arena, Allocator, fill, lost, two_blocks, check_pair, check_merged, check_aligned,
  rust_heap_smoke,
}

module _ {R : Type 0} where
  lost-fill :
      (p val last : ℕ) (h : Heap (Arena R))
      → val < 256
      → lost p val last (fill p val (last + 1) h) ≡ false
  lost-fill p val last h small = ground (
    arith,
    memset_lem p val (last + 1) h.rust.bytes p,
    memset_lem p val (last + 1) h.rust.bytes (p + last),
  )

  -- The block of `b` is the longer one, so it meets that of `a` only if it covers one of its ends.
  lost-two_blocks :
      (a b : ℕ) (h : Heap (Arena R))
      → ((lost a 0xAA 127 (two_blocks a b h) || lost b 0x55 255 (two_blocks a b h)) ≡ false)
          × ((a + 128 ≤ b) ⊎ (b + 256 ≤ a))
        ⊎ ((lost a 0xAA 127 (two_blocks a b h) || lost b 0x55 255 (two_blocks a b h)) ≡ true)
          × (b < a + 128)
          × (a < b + 256)
  lost-two_blocks a b h =
      let m = h.rust.bytes in
      let m' = memset a 0xAA 128 m in
      ground (
        arith,
        memset_lem a 0xAA 128 m a,
        memset_lem a 0xAA 128 m (a + 127),
        memset_lem b 0x55 256 m' a,
        memset_lem b 0x55 256 m' (a + 127),
        memset_lem b 0x55 256 m' b,
        memset_lem b 0x55 256 m' (b + 255),
      )

  module _ (rs : Allocator R) where
    -- What the allocator has to do: give two blocks that do not overlap, one of their size together
    -- once they are free, and one that starts a page.
    abbrev pub GivesPair : Heap (Arena R) → Type 0
    GivesPair h =
        let (a, h1) = kmalloc rs.alloc 128 h in
        let (b, h2) = kmalloc rs.alloc 256 h1 in (a ≢ 0) × (b ≢ 0) × ((a + 128 ≤ b) ⊎ (b + 256 ≤ a))

    abbrev pub after_pair : Heap (Arena R) → Heap (Arena R)
    after_pair h =
        let (a, h1) = kmalloc rs.alloc 128 h in
        let (b, h2) = kmalloc rs.alloc 256 h1 in
        kfree rs.free b (kfree rs.free a (two_blocks a b h2))

    abbrev pub after_merged : Heap (Arena R) → Heap (Arena R)
    after_merged h = let (c, h1) = kmalloc rs.alloc 384 h in kfree rs.free c (fill c 0xEE 384 h1)

    abbrev pub after_aligned : Heap (Arena R) → Heap (Arena R)
    after_aligned h =
        let (p, h1) = kmalloc_aligned rs.alloc_aligned 100 h in
        kfree_aligned rs.free_aligned p (fill p 0xEE 100 h1)

    abbrev pub GivesPage : Heap (Arena R) → Type 0
    GivesPage h =
        let (p, h1) = kmalloc_aligned rs.alloc_aligned 100 h in (p ≢ 0) × (p % page_size ≡ 0)

    check_pair_lem :
        (h : Heap (Arena R)) (t : Terminal)
        → Decides (Heap (Arena R)) (GivesPair h) (after_pair h) (check_pair rs h t)
    unfolding check_pair
    check_pair_lem h t =
        let a = kmalloc rs.alloc 128 h in
        let b = kmalloc rs.alloc 256 (a.1) in
        elim (Bool-cases (a.0 == 0 || (b.0 == 0 || a.0 == b.0))) [
          | inl bad ↦ inr (
            λ (na, nb, apart). ground (arith, bad, na, nb, apart),
            (
              kernel_panic (some (bytes_of "[smoke] kmalloc devolveu NULL ou ponteiros duplicados"))
                  t,
              rw bad refl,
            ),
          )
          | inr fine ↦ elim (lost-two_blocks (a.0) (b.0) (b.1)) [
            | inl (kept, apart) ↦
                inl ((ground (arith, fine), ground (arith, fine), apart), rw (fine, kept) refl)
            | inr (lost_one, under, over) ↦ inr (
              λ (_, _, apart). ground (arith, apart, under, over),
              (
                kernel_panic (some (bytes_of "[smoke] memoria nao retem o que foi escrito")) t,
                rw (fine, lost_one) refl,
              ),
            )
          ]
        ]

    check_merged_lem :
        (h : Heap (Arena R)) (t : Terminal)
        → Decides
            (Heap (Arena R))
            ((kmalloc rs.alloc 384 h).0 ≢ 0)
            (after_merged h)
            (check_merged rs h t)
    unfolding check_merged
    check_merged_lem h t =
        let c = kmalloc rs.alloc 384 h in
        elim (Bool-cases (c.0 == 0)) [
          | inl bad ↦ inr (
            λ given. ground (arith, bad, given),
            (kernel_panic (some (bytes_of "[smoke] kmalloc apos coalesce falhou")) t, rw bad refl),
          )
          | inr fine ↦
              inl
                (ground (arith, fine), rw (fine, lost-fill (c.0) 0xEE 383 (c.1) (omega arith)) refl)
        ]

    check_aligned_lem :
        (h : Heap (Arena R)) (t : Terminal)
        → Decides (Heap (Arena R)) (GivesPage h) (after_aligned h) (check_aligned rs h t)
    unfolding check_aligned
    check_aligned_lem h t =
        let p = kmalloc_aligned rs.alloc_aligned 100 h in
        elim (Bool-cases (p.0 == 0 || not (p.0 % page_size == 0))) [
          | inl bad ↦ inr (
            λ (given, page). ground (arith, bad, given, page),
            (
              kernel_panic
                  (some (bytes_of "[smoke] kmalloc_aligned nao devolveu ponteiro alinhado")) t,
              rw bad refl,
            ),
          )
          | inr fine ↦ inl (
            (ground (arith, fine), ground (arith, fine)),
            rw (fine, lost-fill (p.0) 0xEE 99 (p.1) (omega arith)) refl,
          )
        ]

    -- The three tests in their order, each on the heap that the one before left.
    abbrev pub Serves : Heap (Arena R) → Type 0
    Serves h =
        GivesPair h
        × ((kmalloc rs.alloc 384 (after_pair h)).0 ≢ 0)
        × GivesPage (after_merged (after_pair h))

    -- `rust_heap_smoke` goes on, with all its blocks released, exactly if the allocator serves its
    -- requests: two blocks that are not null and have refused byte in common, then a block of the size of
    -- both that is not null, then a block at the start of a page that is not null. If not, it panics.
    pub rust_heap_smoke_lem :
        (h : Heap (Arena R)) (s : Console)
        → Decides
            (Heap (Arena R) × Console)
            (Serves h)
            (
              after_aligned (after_merged (after_pair h)),
              show (bytes_of "[smoke] kmalloc/kfree/coalesce/aligned: OK (via munux_rs)\n") (
                  use_color 10 0
                    (show (bytes_of "[smoke] Testando heap Rust...\n") (use_color 11 0 s))),
            )
            (rust_heap_smoke rs h s)
    unfolding rust_heap_smoke
    rust_heap_smoke_lem h s =
        let t = (show (bytes_of "[smoke] Testando heap Rust...\n") (use_color 11 0 s)).terminal in
        elim (check_pair_lem h t) [
          | inr (refused, (u, e)) ↦ inr (λ (one, _, _). refused one, (u, rw e refl))
          | inl (one, e1) ↦ elim (check_merged_lem (after_pair h) t) [
            | inr (refused, (u, e)) ↦ inr (λ (_, two, _). refused two, (u, rw (e1, e) refl))
            | inl (two, e2) ↦ elim (check_aligned_lem (after_merged (after_pair h)) t) [
              | inr (refused, (u, e)) ↦
                  inr (λ (_, _, three). refused three, (u, rw (e1, e2, e) refl))
              | inl (three, e3) ↦ inl ((one, two, three), rw (e1, e2, e3) refl)
            ]
          ]
        ]
