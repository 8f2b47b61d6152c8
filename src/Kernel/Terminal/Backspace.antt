-- ===== src/Kernel/Terminal/Backspace.antt =====
-- `terminal_backspace` after `terminal_putchar`.
use munux.Common.{ℕ, ◌≡◌, ◌≢◌, ◌==◌, if◌then◌else◌, arith}
use munux.Kernel.Terminal.{Terminal, advance, putchar, backspace, erase_cell, vga_entry, cursor}
use munux.Kernel.Terminal.Write.{IsValid}

-- Except in the last cell of the screen, erasing the character just typed puts the cursor back and
-- leaves a blank in its cell; no other cell differs from before.
pub backspace-putchar :
    {t : Terminal} (c : ℕ)
    → IsValid t
    → c ≢ b'\n'
    → cursor t ≢ 1999
    → let t' = backspace (putchar c t) in
      (t'.row ≡ t.row)
      × (t'.column ≡ t.column)
      × ((q : ℕ) → t'.video q ≡ (if q == cursor t then vga_entry 0x20 t.color else t.video q))
unfolding backspace erase_cell putchar advance
backspace-putchar {t} c v ne inside = (ground arith, ground arith, λ q. ground arith)

-- In the last cell the character cannot be erased: the cursor has gone to the first cell, and the
-- call does nothing.
pub backspace-putchar_last :
    {t : Terminal} (c : ℕ)
    → IsValid t
    → c ≢ b'\n'
    → cursor t ≡ 1999
    → (backspace (putchar c t) ≡ putchar c t) × ((putchar c t).video 1999 ≡ vga_entry c t.color)
unfolding backspace putchar advance
backspace-putchar_last {t} c v ne last = (ground arith, ground arith)
