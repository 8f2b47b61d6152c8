-- ===== src/Kernel/Checks/Smoke.antt =====
-- `rust_heap_smoke` of munux-os/kernel/kernel.c. The allocator of the Rust library is a parameter. It
-- keeps its own data among the bytes that it gives out, so each of its functions takes the bytes too.
pub mod Accepts
use munux.Common.{
  ◌<◌, ◌≤◌, ◌≢◌, ◌≡◌, ◌⊎◌, inl, inr, refl, true, false, ℕ, ◌+◌, ◌%◌, ◌*◌, ◌^◌, Bool, Bool-cases,
  arith, some, List, not, ◌||◌, ◌==◌, if◌then◌else◌,
}
use munux.Common.Text.{bytes_of}
use munux.Common.Memory.{Memory}
use munux.Memory.Bytes.{memset}
use munux.Memory.Bytes.Copy.{memset_lem}
use munux.Memory.Pmm.{page_size}
use munux.Memory.Heap.{Heap, kmalloc, kmalloc_aligned, kfree, kfree_aligned}
use munux.Kernel.Terminal.{Terminal}
use munux.Kernel.Console.{Console, show, use_color}
use munux.Kernel.Checks.{Run, done, halted, undefined, ◌>>=◌, panic_if}

-- The bytes of memory, and what else the allocator keeps.
pub record Arena (R : Type 0) : Type 0 where
  pub bytes : Memory
  pub own : R

-- `munux_rs_alloc`, `munux_rs_free` and the two for aligned blocks.
pub record Allocator (R : Type 0) : Type 0 where
  pub alloc : ℕ → Heap (Arena R) → ℕ × Heap (Arena R)
  pub free : ℕ → Heap (Arena R) → Heap (Arena R)
  pub alloc_aligned : (size alignment : ℕ) → Heap (Arena R) → ℕ × Heap (Arena R)
  pub free_aligned : ℕ → Heap (Arena R) → Heap (Arena R)

module _ {R : Type 0} where
  -- `memset(p, val, len)`
  abbrev pub fill : (p val len : ℕ) → Heap (Arena R) → Heap (Arena R)
  fill p val len h = record h { rust = record h.rust { bytes = memset p val len h.rust.bytes } }

  -- `p[0] != val || p[len - 1] != val`
  abbrev pub lost : (p val last : ℕ) → Heap (Arena R) → Bool
  lost p val last h = not (h.rust.bytes p == val) || not (h.rust.bytes (p + last) == val)

  -- The first two blocks, both written.
  abbrev pub two_blocks : (a b : ℕ) → Heap (Arena R) → Heap (Arena R)
  two_blocks a b h = fill b 0x55 256 (fill a 0xAA 128 h)

  module _ (rs : Allocator R) where
    pub check_pair : Heap (Arena R) → Terminal → Run (Heap (Arena R))
    check_pair h t = do
      let (a, h1) = kmalloc rs.alloc 128 h
      let (b, h2) = kmalloc rs.alloc 256 h1
      given ←
          panic_if (a == 0 || (b == 0 || a == b))
            (bytes_of "[smoke] kmalloc devolveu NULL ou ponteiros duplicados") t
      let h3 = two_blocks a b h2
      kept ←
          panic_if (lost a 0xAA 127 h3 || lost b 0x55 255 h3)
            (bytes_of "[smoke] memoria nao retem o que foi escrito") t
      done (kfree rs.free b (kfree rs.free a h3))

    -- A block of the size of both.
    pub check_merged : Heap (Arena R) → Terminal → Run (Heap (Arena R))
    check_merged h t = do
      let (c, h1) = kmalloc rs.alloc 384 h
      given ← panic_if (c == 0) (bytes_of "[smoke] kmalloc apos coalesce falhou") t
      let h2 = fill c 0xEE 384 h1
      kept ← panic_if (lost c 0xEE 383 h2) (bytes_of "[smoke] bloco coalescido nao e gravavel") t
      done (kfree rs.free c h2)

    pub check_aligned : Heap (Arena R) → Terminal → Run (Heap (Arena R))
    check_aligned h t = do
      let (p, h1) = kmalloc_aligned rs.alloc_aligned 100 h
      given ←
          panic_if (p == 0 || not (p % page_size == 0))
            (bytes_of "[smoke] kmalloc_aligned nao devolveu ponteiro alinhado") t
      let h2 = fill p 0xEE 100 h1
      kept ← panic_if (lost p 0xEE 99 h2) (bytes_of "[smoke] memoria alinhada nao retem escrita") t
      done (kfree_aligned rs.free_aligned p h2)

    -- `rust_heap_smoke`
    pub rust_heap_smoke : Heap (Arena R) → Console → Run (Heap (Arena R) × Console)
    rust_heap_smoke h s = do
      let begun = show (bytes_of "[smoke] Testando heap Rust...\n") (use_color 11 0 s)
      h1 ← check_pair h begun.terminal
      h2 ← check_merged h1 begun.terminal
      h3 ← check_aligned h2 begun.terminal
      done (
        h3,
        show (bytes_of "[smoke] kmalloc/kfree/coalesce/aligned: OK (via munux_rs)\n")
            (use_color 10 0 begun),
      )
