-- ===== src/Kernel/Terminal/Scroll.antt =====
-- A line feed, and clearing the screen.
use munux.Common.{ℕ, ◌+◌, ◌*◌, ◌<◌, ◌≤◌, ◌≡◌, refl, true, ◌==◌, arith}
use munux.Kernel.Terminal.{Terminal, clear, newline, putchar, vga_entry, scroll}
use munux.Kernel.Terminal.Cells.{fill_rows_lem, scroll_lem}

-- The cell in row `y` and column `x`.
abbrev pub cell : Terminal → (y x : ℕ) → ℕ
cell t y x = t.video (y * 80 + x)

-- A line feed above the last row moves the cursor to the start of the next row and writes nothing.
pub newline_above :
    (t : Terminal) → t.row < 24 → putchar b'\n' t ≡ record t { row = t.row + 1; column = 0 }
unfolding putchar newline
newline_above t h = ground arith

-- A line feed on the last row moves each row of the screen up by one, blanks the last row in the
-- current colour, leaves the cursor at its start, and changes no cell outside the screen.
pub newline_scrolls :
    (t : Terminal)
    → t.row ≡ 24
    → let t' = putchar b'\n' t in
      ((y x : ℕ) → y < 24 → x < 80 → cell t' y x ≡ cell t (y + 1) x)
      × ((x : ℕ) → x < 80 → cell t' 24 x ≡ vga_entry 0x20 t.color)
      × ((q : ℕ) → 2000 ≤ q → t'.video q ≡ t.video q)
      × (t'.row ≡ 24)
      × (t'.column ≡ 0)
      × (t'.color ≡ t.color)
unfolding putchar newline
newline_scrolls t h =
    let bottom : (t.row + 1 == 25) ≡ true = ground arith in
    rw bottom (
      λ y x hy hx. moved y x hy hx,
      λ x hx. ground (arith, scroll_lem t.color t.video (24 * 80 + x)),
      λ q hq. ground (arith, scroll_lem t.color t.video q),
      refl,
      refl,
      refl,
    )
  where
    moved :
        (y x : ℕ)
        → y < 24
        → x < 80
        → scroll t.color t.video (y * 80 + x) ≡ t.video ((y + 1) * 80 + x)
    moved y x hy hx =
        let e : y * 80 + x + 80 ≡ (y + 1) * 80 + x = omega arith in
        rw (← e) (ground (arith, scroll_lem t.color t.video (y * 80 + x)))

-- `terminal_clear` blanks every cell of the screen in the current colour, changes no other, and
-- puts the cursor in the first cell.
pub clear_lem :
    (t : Terminal)
    → ((y x : ℕ) → y < 25 → x < 80 → cell (clear t) y x ≡ vga_entry 0x20 t.color)
      × ((q : ℕ) → 2000 ≤ q → (clear t).video q ≡ t.video q)
      × ((clear t).row ≡ 0)
      × ((clear t).column ≡ 0)
unfolding clear
clear_lem t = (
  λ y x hy hx. ground (arith, fill_rows_lem 25 0 (vga_entry 0x20 t.color) t.video (y * 80 + x)),
  λ q hq. ground (arith, fill_rows_lem 25 0 (vga_entry 0x20 t.color) t.video q),
  refl,
  refl,
)
