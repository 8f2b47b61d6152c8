-- ===== src/Kernel/Terminal/Write.antt =====
-- The cursor stays on the screen, and no write leaves it.
use munux.Common.{
  ℕ, ◌+◌, ◌<◌, ◌≤◌, ◌≡◌, ◌≢◌, refl, ◌∙◌, inl, inr, List, [], ◌∷◌, ◌==◌, if◌then◌else◌, arith,
  Bool-cases,
}
use munux.Kernel.Terminal.{
  Terminal, setcolor, newline, advance, putchar, write, backspace, erase_cell, vga_entry, cursor,
}
use munux.Kernel.Terminal.Cells.{scroll_lem}

pub record IsValid (t : Terminal) : Type 0 where
  pub row_in : t.row < 25
  pub column_in : t.column < 80

newline-IsValid : {t : Terminal} → IsValid t → IsValid (newline t)
unfolding newline
newline-IsValid v = ground arith

advance-IsValid : {t : Terminal} → IsValid t → IsValid (advance t)
unfolding advance
advance-IsValid v = ground arith

pub putchar-IsValid : {t : Terminal} (c : ℕ) → IsValid t → IsValid (putchar c t)
unfolding putchar
putchar-IsValid {t} c v = elim (Bool-cases (c == b'\n')) [
  | inl e ↦ rw e (newline-IsValid v)
  | inr e ↦ rw e (advance-IsValid (record { row_in = v.row_in; column_in = v.column_in }))
]

pub backspace-IsValid : {t : Terminal} → IsValid t → IsValid (backspace t)
unfolding backspace erase_cell
backspace-IsValid v = ground arith

pub setcolor-IsValid : {t : Terminal} (color : ℕ) → IsValid t → IsValid (setcolor color t)
unfolding setcolor
setcolor-IsValid color v = record { row_in = v.row_in; column_in = v.column_in }

putchar_outside :
    {t : Terminal} (c q : ℕ) → IsValid t → 2000 ≤ q → (putchar c t).video q ≡ t.video q
unfolding putchar newline advance
putchar_outside {t} c q v h = ground (arith, scroll_lem t.color t.video q)

-- Whatever is printed, the cursor stays inside the 25 rows of 80 cells and no index from 2000 on
-- is written.
pub write_safe :
    (text : List ℕ) {t : Terminal}
    → IsValid t
    → IsValid (write text t) × ((q : ℕ) → 2000 ≤ q → (write text t).video q ≡ t.video q)
unfolding write
write_safe [] v = (v, λ q h. refl)
write_safe (c ∷ rest) v =
    let (w, same) = write_safe rest (putchar-IsValid c v) in
    (w, λ q h. same q h ∙ putchar_outside c q v h)

-- A printable character goes to the cell under the cursor in the current colour; no other cell
-- changes, and the cursor moves one cell on, from the last cell of the screen to the first.
pub putchar_printable :
    {t : Terminal} (c : ℕ)
    → IsValid t
    → c ≢ b'\n'
    → ((q : ℕ) → (putchar c t).video q ≡ (if q == cursor t then vga_entry c t.color else t.video q))
      × (cursor (putchar c t) ≡ (if cursor t == 1999 then 0 else cursor t + 1))
unfolding putchar advance
putchar_printable {t} c v ne = (λ q. ground arith, ground arith)
