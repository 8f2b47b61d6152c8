-- ===== src/Kernel/Terminal/Tests.antt =====
-- Runs of the terminal, and its theorems at concrete states.
use munux.Common.{ℕ, ◌+◌, ◌*◌, ◌<◌, ◌≤◌, ◌≡◌, refl, [], ◌∷◌, ◌==◌, if◌then◌else◌, arith}
use munux.Kernel.Terminal.{Terminal, vga_entry, putchar, advance, write, backspace}
use munux.Kernel.Terminal.Scroll.{cell, newline_above, newline_scrolls}
use munux.Kernel.Terminal.Write.{IsValid, write_safe}
use munux.Kernel.Terminal.Backspace.{backspace-putchar, backspace-putchar_last}

abbrev screen : Terminal
screen = record { video = λ q. q; row = 24; column = 79; color = 7 }

abbrev middle : Terminal
middle = record screen { row = 3; column = 79 }

screen-IsValid : IsValid screen
screen-IsValid = omega arith

-- `A` in light grey in the last cell, and the next character in the first cell.
last_cell :
    ((write (65 ∷ 66 ∷ []) screen).video 1999 ≡ 0x741)
    × ((write (65 ∷ 66 ∷ []) screen).video 0 ≡ 0x742)
unfolding write putchar advance vga_entry
last_cell = (refl, refl)

newline_above_example : putchar 10 middle ≡ record middle { row = 4; column = 0 }
newline_above_example = newline_above middle (omega arith)

newline_scrolls_example :
    let t = putchar 10 screen in
    ((y x : ℕ) → y < 24 → x < 80 → cell t y x ≡ (y + 1) * 80 + x)
    × ((x : ℕ) → x < 80 → cell t 24 x ≡ vga_entry 0x20 7)
    × ((q : ℕ) → 2000 ≤ q → t.video q ≡ q)
    × (t.row ≡ 24)
    × (t.column ≡ 0)
    × (t.color ≡ 7)
newline_scrolls_example = newline_scrolls screen refl

write_safe_example :
    IsValid (write (65 ∷ 10 ∷ 66 ∷ []) screen)
    × ((q : ℕ) → 2000 ≤ q → (write (65 ∷ 10 ∷ 66 ∷ []) screen).video q ≡ q)
write_safe_example = write_safe (65 ∷ 10 ∷ 66 ∷ []) screen-IsValid

backspace-putchar_example :
    let t = backspace (putchar 65 middle) in
    (t.row ≡ 3)
    × (t.column ≡ 79)
    × ((q : ℕ) → t.video q ≡ (if q == 319 then vga_entry 0x20 7 else q))
backspace-putchar_example =
    backspace-putchar {t = middle} 65 (omega arith) (omega arith) (omega arith)

backspace-putchar_last_example :
    (backspace (putchar 65 screen) ≡ putchar 65 screen)
    × ((putchar 65 screen).video 1999 ≡ vga_entry 65 7)
backspace-putchar_last_example = backspace-putchar_last 65 screen-IsValid (omega arith) refl
