-- ===== src/Kernel/Terminal/Cells.antt =====
-- The loops over the cells of the screen, as equations for every index of the video memory.
use munux.Common.{ℕ, zero, suc, ◌+◌, ◌-◌, ◌*◌, ◌≤◌, ◌≡◌, ◌&&◌, if◌then◌else◌, ltb, leb, arith}
use munux.Common.Memory.{Memory, update}
use munux.Kernel.Terminal.{fill_cells, fill_rows, copy_cells, copy_rows, scroll, vga_entry}

pub fill_cells_lem :
    (n x y v : ℕ) (m : Memory) (q : ℕ)
    → fill_cells n x y v m q ≡ (if leb (y * 80 + x) q && ltb q (y * 80 + x + n) then v else m q)
unfolding fill_cells
fill_cells_lem zero x y v m q = ground arith
fill_cells_lem (suc n) x y v m q =
    ground (arith, fill_cells_lem n (x + 1) y v (update m (y * 80 + x) v) q)

pub fill_rows_lem :
    (n y v : ℕ) (m : Memory) (q : ℕ)
    → fill_rows n y v m q ≡ (if leb (y * 80) q && ltb q (y * 80 + n * 80) then v else m q)
unfolding fill_rows
fill_rows_lem zero y v m q = ground arith
fill_rows_lem (suc n) y v m q =
    ground (arith, fill_rows_lem n (y + 1) v (fill_cells 80 0 y v m) q, fill_cells_lem 80 0 y v m q)

-- The source of each copy is ahead of every cell written before it.
copy_cells_lem :
    (n x y : ℕ) (m : Memory) (q : ℕ)
    → 1 ≤ y
    → x + n ≤ 80
    → copy_cells n x y m q
      ≡ (if leb ((y - 1) * 80 + x) q && ltb q ((y - 1) * 80 + x + n) then m (q + 80) else m q)
unfolding copy_cells
copy_cells_lem zero x y m q h k = ground arith
copy_cells_lem (suc n) x y m q h k =
    let ahead : y * 80 + x ≡ (y - 1) * 80 + x + 80 = omega arith in
    rw ahead (
      ground (
        arith,
        copy_cells_lem n (x + 1) y (update m ((y - 1) * 80 + x) (m ((y - 1) * 80 + x + 80))) q h
            (omega arith),
      ))

copy_rows_lem :
    (n y : ℕ) (m : Memory) (q : ℕ)
    → 1 ≤ y
    → copy_rows n y m q
      ≡ (if leb ((y - 1) * 80) q && ltb q ((y - 1) * 80 + n * 80) then m (q + 80) else m q)
unfolding copy_rows
copy_rows_lem zero y m q h = ground arith
copy_rows_lem (suc n) y m q h = ground (
  arith,
  copy_rows_lem n (y + 1) (copy_cells 80 0 y m) q (omega arith),
  copy_cells_lem 80 0 y m q h (omega arith),
  copy_cells_lem 80 0 y m (q + 80) h (omega arith),
)

-- The scroll moves every row up by one, blanks the last, and writes no cell off the screen.
pub scroll_lem :
    (color : ℕ) (m : Memory) (q : ℕ)
    → scroll color m q
      ≡ (if ltb q 1920 then m (q + 80) else if ltb q 2000 then vga_entry 0x20 color else m q)
unfolding scroll
scroll_lem color m q = ground (
  arith,
  fill_cells_lem 80 0 24 (vga_entry 0x20 color) (copy_rows 24 1 m) q,
  copy_rows_lem 24 1 m q,
)
