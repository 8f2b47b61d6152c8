-- ===== src/Kernel/Terminal.antt =====
-- The VGA text screen of munux-os/kernel/kernel.c: 25 rows of 80 cells of 16 bits at VGA_MEMORY.
-- A `char` is its byte. `video` is indexed from VGA_MEMORY and is not bounded by the screen.
pub mod Cells
pub mod Scroll
pub mod Write
pub mod Backspace
mod Tests
use munux.Common.{
  ℕ, zero, suc, ◌+◌, ◌-◌, ◌*◌, ◌%◌, ◌^◌, List, [], ◌∷◌, bit_or, ◌==◌, ltb, if◌then◌else◌,
}
use munux.Common.Memory.{Memory, update}

abbrev pub vga_width : ℕ
vga_width = 80

abbrev pub vga_height : ℕ
vga_height = 25

-- The static variables of the terminal.
pub record Terminal : Type 0 where
  pub video : Memory
  pub row : ℕ
  pub column : ℕ
  pub color : ℕ

-- `fg | bg << 4`, as `uint8_t`.
pub vga_entry_color : ℕ → ℕ → ℕ
vga_entry_color fg bg = bit_or fg (bg * 2 ^ 4) % 2 ^ 8

-- `uc | color << 8`, as `uint16_t`.
pub vga_entry : ℕ → ℕ → ℕ
vga_entry uc color = bit_or uc (color * 2 ^ 8) % 2 ^ 16

abbrev pub space : ℕ
space = 0x20

-- `for (x = from; x < from + n; x++) video_memory[y * VGA_WIDTH + x] = v`
pub fill_cells : (n x y v : ℕ) → Memory → Memory
fill_cells zero x y v m = m
fill_cells (suc n) x y v m = fill_cells n (x + 1) y v (update m (y * vga_width + x) v)

pub fill_rows : (n y v : ℕ) → Memory → Memory
fill_rows zero y v m = m
fill_rows (suc n) y v m = fill_rows n (y + 1) v (fill_cells vga_width 0 y v m)

-- `terminal_clear`
pub clear : Terminal → Terminal
clear t = record {
  video = fill_rows vga_height 0 (vga_entry space t.color) t.video;
  row = 0;
  column = 0;
  color = t.color;
}

-- `terminal_setcolor`
unfoldable pub setcolor : ℕ → Terminal → Terminal
setcolor color t = record t { color = color }

-- The two loops of the scroll: cell by cell, row `y` to row `y - 1`.
copy_cells : (n x y : ℕ) → Memory → Memory
copy_cells zero x y m = m
copy_cells (suc n) x y m =
    copy_cells n (x + 1) y (update m ((y - 1) * vga_width + x) (m (y * vga_width + x)))

copy_rows : (n y : ℕ) → Memory → Memory
copy_rows zero y m = m
copy_rows (suc n) y m = copy_rows n (y + 1) (copy_cells vga_width 0 y m)

pub scroll : ℕ → Memory → Memory
scroll color m =
    fill_cells vga_width 0 (vga_height - 1) (vga_entry space color) (copy_rows (vga_height - 1) 1 m)

-- The branch of `terminal_putchar` for '\n'.
pub newline : Terminal → Terminal
newline t =
    if t.row + 1 == vga_height
    then record t { video = scroll t.color t.video; row = vga_height - 1; column = 0 }
    else record t { row = t.row + 1; column = 0 }

-- Past the last column the cursor goes to the next row, and from the last row to the first.
pub advance : Terminal → Terminal
advance t =
    if t.column + 1 == vga_width
    then record t { row = if t.row + 1 == vga_height then 0 else t.row + 1; column = 0 }
    else record t { column = t.column + 1 }

abbrev pub cursor : Terminal → ℕ
cursor t = t.row * vga_width + t.column

-- `terminal_putchar`
pub putchar : ℕ → Terminal → Terminal
putchar c t =
    if c == b'\n'
    then newline t
    else advance (record t { video = update t.video (cursor t) (vga_entry c t.color) })

-- `terminal_write` of the bytes of `data`, and `terminal_writestring`.
unfoldable pub write : List ℕ → Terminal → Terminal
write [] t = t
write (c ∷ rest) t = write rest (putchar c t)

erase_cell : Terminal → Terminal
erase_cell t = record t { video = update t.video (cursor t) (vga_entry space t.color) }

-- `terminal_backspace`
pub backspace : Terminal → Terminal
backspace t =
    if ltb 0 t.column
    then erase_cell (record t { column = t.column - 1 })
    else if ltb 0 t.row
    then erase_cell (record t { row = t.row - 1; column = vga_width - 1 })
    else t
