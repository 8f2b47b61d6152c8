-- ===== src/Kernel/Shell/Line.antt =====
-- The line editor: what is in the array when a line ends.
use native.Mathlib.Numerals.{add-one}
use munux.Common.{
  ℕ, zero, suc, ◌+◌, ◌-◌, ◌≤◌, ◌≡◌, ◌≢◌, refl, ap, sym, ◌∙◌, inl, inr, false, ◌&&◌, some, List, [],
  ◌∷◌, ◌++◌, ◌==◌, ltb, leb, if◌then◌else◌, length, length-append, All, arith, Bool-cases,
}
use munux.Common.Memory.{Memory, update, update_ne, update_self}
use munux.Kernel.Terminal.Write.{IsValid, putchar-IsValid, backspace-IsValid}
use munux.Kernel.Shell.{Editing, edit_key, end_line, read_line}

-- A text without its last character.
abbrev pub drop_last : List ℕ → List ℕ
drop_last [] = []
drop_last (x ∷ []) = []
drop_last (x ∷ y ∷ rest) = x ∷ drop_last (y ∷ rest)

-- What a key does to the text of the line.
abbrev pub edited : ℕ → List ℕ → List ℕ
edited c text =
    if c == 8
    then drop_last text
    else if leb 32 c && (ltb c 127 && ltb (length text) 127)
    then text ++ c ∷ []
    else text

abbrev pub edited_all : List ℕ → List ℕ → List ℕ
edited_all [] text = text
edited_all (c ∷ keys) text = edited_all keys (edited c text)

-- The first `n` bytes of a memory.
abbrev pub first_bytes : Memory → ℕ → List ℕ
first_bytes m zero = []
first_bytes m (suc n) = first_bytes m n ++ m n ∷ []

first_bytes-update :
    (n p v : ℕ) (m : Memory) → n ≤ p → first_bytes (update m p v) n ≡ first_bytes m n
first_bytes-update zero p v m h = refl
first_bytes-update (suc n) p v m h = ground (arith, first_bytes-update n p v m)

length-first_bytes : (n : ℕ) (m : Memory) → length (first_bytes m n) ≡ n
length-first_bytes zero m = refl
length-first_bytes (suc n) m =
    omega (arith, length-append (first_bytes m n) (m n ∷ []), length-first_bytes n m)

drop_last-append_one : (text : List ℕ) (c : ℕ) → drop_last (text ++ c ∷ []) ≡ text
drop_last-append_one [] c = refl
drop_last-append_one (x ∷ []) c = refl
drop_last-append_one (x ∷ y ∷ rest) c = ap (x ∷◌) (drop_last-append_one (y ∷ rest) c)

first_bytes_pred : (n : ℕ) (m : Memory) → first_bytes m (n - 1) ≡ drop_last (first_bytes m n)
first_bytes_pred zero m = refl
first_bytes_pred (suc n) m =
    let e : suc n - 1 ≡ n = omega arith in rw e (sym (drop_last-append_one (first_bytes m n) (m n)))

first_bytes_typed :
    (n c : ℕ) (m : Memory) → first_bytes (update m n c) (n + 1) ≡ first_bytes m n ++ c ∷ []
first_bytes_typed n c m =
    let self : update m n c n ≡ c = ground arith in
    rw (add-one n, first_bytes-update n n c m (omega arith), self)

-- The array holds the text, at most 127 bytes of it, and nothing behind the array changed.
pub record Shows (m : Memory) (text : List ℕ) (e : Editing) : Type 0 where
  pub stored : first_bytes e.line e.len ≡ text
  pub fits : e.len ≤ 127
  pub within : (q : ℕ) → 128 ≤ q → e.line q ≡ m q
  pub screen : IsValid e.console.terminal

module _ (c : ℕ) (e : Editing) where
  stored-edit_key :
      first_bytes (edit_key c e).line (edit_key c e).len ≡ edited c (first_bytes e.line e.len)
  unfolding edit_key
  stored-edit_key = ground (
    arith,
    first_bytes_pred e.len e.line,
    first_bytes_typed e.len c e.line,
    length-first_bytes e.len e.line,
  )

  fits-edit_key : e.len ≤ 127 → (edit_key c e).len ≤ 127
  unfolding edit_key
  fits-edit_key h = ground arith

  within-edit_key : (q : ℕ) → e.len ≤ 127 → 128 ≤ q → (edit_key c e).line q ≡ e.line q
  unfolding edit_key
  within-edit_key q h l = ground arith

  screen-edit_key : IsValid e.console.terminal → IsValid (edit_key c e).console.terminal
  unfolding edit_key
  screen-edit_key v = elim (Bool-cases (c == 8)) [
    | inl back ↦ rw back (elim (Bool-cases (ltb 0 e.len)) [
      | inl some_left ↦ rw some_left (backspace-IsValid v)
      | inr none_left ↦ rw none_left v
    ])
    | inr typed ↦ rw typed (elim (Bool-cases (leb 32 c && ltb c 127)) [
      | inl printable ↦ rw printable (elim (Bool-cases (ltb e.len 127)) [
        | inl room ↦ rw room (putchar-IsValid c v)
        | inr full ↦ rw full v
      ])
      | inr other ↦ rw other v
    ])
  ]

edit_key-Shows :
    (m : Memory) (text : List ℕ) (e : Editing) (c : ℕ)
    → Shows m text e
    → Shows m (edited c text) (edit_key c e)
edit_key-Shows m text e c h = record {
  stored = stored-edit_key c e ∙ ap (edited c) h.stored;
  fits = fits-edit_key c e h.fits;
  within = λ q l. within-edit_key c e q h.fits l ∙ h.within q l;
  screen = screen-edit_key c e h.screen;
}

-- The line that `shell_exec` is given: the text with its NUL.
abbrev pub IsLine : Memory → List ℕ → Editing → Type 0
IsLine m text e = Shows m text e × (e.line e.len ≡ 0)

-- From a line that holds `text`, when the keys before the first line feed have been read, the array holds what
-- they leave of the text (a backspace takes the last character, a printable character is added
-- while there are fewer than 127, any other is ignored), then a NUL, and nothing behind the 128
-- bytes of the array has changed; the cursor is on the screen, and the later keys are left.
pub read_line_lem :
    (keys later text : List ℕ) (m : Memory) (e : Editing)
    → All (λ c. c ≢ b'\n') keys
    → Shows m text e
    → (e' : Editing) × (read_line (keys ++ b'\n' ∷ later) e ≡ some (later, e'))
      × IsLine m (edited_all keys text) e'
unfolding read_line end_line
read_line_lem [] later text m e plain h = (
  end_line e,
  refl,
  (
    record {
      stored = first_bytes-update e.len e.len 0 e.line (omega arith) ∙ h.stored;
      fits = h.fits;
      within = λ q l. update_ne e.line e.len 0 q (ground arith) ∙ h.within q l;
      screen = putchar-IsValid b'\n' h.screen;
    },
    update_self e.line e.len 0,
  ),
)
read_line_lem (c ∷ keys) later text m e plain h =
    let (e', done, line) =
      read_line_lem keys later (edited c text) m (edit_key c e) plain.1
        (edit_key-Shows m text e c h) in
    let more : (c == b'\n') ≡ false = ground arith in (e', rw more done, line)
