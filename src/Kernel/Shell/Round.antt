-- ===== src/Kernel/Shell/Round.antt =====
-- One round of the shell: the text that is typed is the text that is executed.
use mathlib.Core.Path.{subst}
use munux.Common.{
  ◌>>=◌, ℕ, zero, suc, ◌+◌, ◌≤◌, ◌≡◌, ◌≢◌, refl, ap, sym, ◌∙◌, inl, inr, ◌&&◌, some, List, [], ◌∷◌,
  ◌++◌, ◌==◌, ltb, leb, length, All, All-append, arith, Bool-cases,
}
use munux.Common.Text.{bytes_of}
use munux.Common.Memory.{Memory}
use munux.Kernel.Terminal.Write.{IsValid, write_safe, setcolor-IsValid}
use munux.Kernel.Terminal.{vga_entry_color}
use munux.Kernel.Console.{Console, show, use_color, string_at, string_at_bytes, bytes_from}
use munux.Kernel.Shell.{Editing, shell_exec, shell_round}
use munux.Kernel.Shell.Line.{drop_last, edited, edited_all, first_bytes, Shows, read_line_lem}

bytes_from-append_one :
    (n p : ℕ) (m : Memory) → bytes_from m p n ++ m (p + n) ∷ [] ≡ bytes_from m p (suc n)
bytes_from-append_one zero p m = let e : p + 0 ≡ p = omega arith in rw e refl
bytes_from-append_one (suc n) p m =
    let e : p + suc n ≡ p + 1 + n = omega arith in
    rw e (ap (m p ∷◌) (bytes_from-append_one n (p + 1) m))

first_bytes-bytes_from : (n : ℕ) (m : Memory) → first_bytes m n ≡ bytes_from m 0 n
first_bytes-bytes_from zero m = refl
first_bytes-bytes_from (suc n) m = rw (first_bytes-bytes_from n m) (
    subst (λ q. bytes_from m 0 n ++ m q ∷ [] ≡ bytes_from m 0 (suc n)) (omega arith)
      (bytes_from-append_one n 0 m))

abbrev Printable : ℕ → Type 0
Printable c = 32 ≤ c

drop_last-Printable : (text : List ℕ) → All Printable text → All Printable (drop_last text)
drop_last-Printable [] h = h
drop_last-Printable (x ∷ []) h = tt
drop_last-Printable (x ∷ y ∷ rest) h = (h.0, drop_last-Printable (y ∷ rest) h.1)

edited-Printable : (c : ℕ) (text : List ℕ) → All Printable text → All Printable (edited c text)
edited-Printable c text h = elim (Bool-cases (c == 8)) [
  | inl back ↦ rw back (drop_last-Printable text h)
  | inr typed ↦ rw typed (elim (Bool-cases (leb 32 c && (ltb c 127 && ltb (length text) 127))) [
    | inl room ↦ rw room (All-append Printable text (c ∷ []) h (ground arith, tt))
    | inr other ↦ rw other h
  ])
]

edited_all-Printable :
    (keys text : List ℕ) → All Printable text → All Printable (edited_all keys text)
edited_all-Printable [] text h = h
edited_all-Printable (c ∷ keys) text h =
    edited_all-Printable keys (edited c text) (edited-Printable c text h)

All-ne_zero : (text : List ℕ) → All Printable text → All (λ c. c ≢ 0) text
All-ne_zero [] h = tt
All-ne_zero (c ∷ text) h = (omega arith, All-ne_zero text h.1)

found_text :
    {m : Memory} (e : Editing) (text : List ℕ)
    → Shows m text e
    → e.line e.len ≡ 0
    → All Printable text
    → string_at 128 0 e.line ≡ some text
found_text e text shows nul printable =
    let same : bytes_from e.line 0 e.len ≡ text =
      sym (first_bytes-bytes_from e.len e.line) ∙ shows.stored in
    let end : e.line (0 + e.len) ≡ 0 = subst (λ q. e.line q ≡ 0) (omega arith) nul in
    let ne = subst (All (λ c. c ≢ 0)) (sym same) (All-ne_zero text printable) in
    string_at_bytes e.len 128 0 e.line ne end (omega (arith, shows.fits)) ∙ ap some same

-- For keys with no line feed, from a cursor on the screen, a round of the shell on the keys and a
-- line feed runs `shell_exec` on the text that the keys leave, from a console whose cursor is on
-- the screen, and leaves the later keys for the next round.
pub shell_round_lem :
    (keys later : List ℕ) (ticks buf : ℕ) (line m : Memory) (s : Console)
    → All (λ c. c ≢ b'\n') keys
    → IsValid s.terminal
    → (s' : Console) × IsValid s'.terminal
      × (shell_round (keys ++ b'\n' ∷ later) ticks buf line m s
          ≡ (shell_exec (edited_all keys []) ticks buf m s' >>= λ r. some (later, r)))
unfolding shell_round
shell_round_lem keys later ticks buf line m s plain v =
    let shown = show (bytes_of "munux> ") (use_color 11 0 s) in
    let prompted : Console = record shown { sent = shown.sent ++ bytes_of "munux> " } in
    let first : Editing = record { line = line; len = 0; console = use_color 7 0 prompted } in
    let painted = setcolor-IsValid (vga_entry_color 11 0) v in
    let starts : Shows line [] first = record {
      stored = refl;
      fits = omega arith;
      within = λ q l. refl;
      screen = setcolor-IsValid (vga_entry_color 7 0) (write_safe (bytes_of "munux> ") painted).0;
    } in
    let (e, done, (shows, nul)) = read_line_lem keys later [] line first plain starts in
    let text = edited_all keys [] in
    let found : string_at 128 0 e.line ≡ some text =
      found_text e text shows nul (edited_all-Printable keys [] tt) in
    (e.console, shows.screen, rw (done, found) refl)
