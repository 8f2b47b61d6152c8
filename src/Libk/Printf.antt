-- ===== src/Libk/Printf.antt =====
-- munux-os/kernel/lib/printf.c: the formatting engine.
-- The functions that emit characters stand over `putc`, the `putc_buf` of the file, and the state
-- that it changes. A `va_list` is the list of the arguments; `none` is undefined behaviour: an
-- argument that is missing or of another kind, or a width that overflows an `int`.
pub mod Sink
pub mod Layout
pub mod Bounded
mod Tests
use munux.Common.{
  ◌>>=◌, ℕ, zero, suc, ◌+◌, ◌-◌, ◌*◌, ◌%◌, ◌^◌, Bool, true, false, Option, none, some, List, [],
  ◌∷◌, map, ◌||◌, ◌==◌, ltb, if◌then◌else◌, length,
}
use munux.Common.Word.{add32}
use munux.Common.Memory.{Memory, update}
use munux.Libk.Ctype.{is_digit, to_upper}
use munux.Libk.Conv.{digits, negate, is_negative}

-- An argument: a word (`int`, `uint32_t` or `void*`), or a string, NULL included.
pub data Arg : Type 0 where
  word : ℕ → Arg
  string : Option (List ℕ) → Arg

-- `va_arg(args, int)` and `va_arg(args, const char*)`.
abbrev pub next_word : List Arg → Option (ℕ × List Arg)
next_word (word v ∷ args) = some (v, args)
next_word _ = none

abbrev pub next_string : List Arg → Option (Option (List ℕ) × List Arg)
next_string (string s ∷ args) = some (s, args)
next_string _ = none

-- Where the loop over the format stands: in plain text, behind '%', or in the flag and width, with
-- the zero flag and the width read so far.
pub data Mode : Type 0 where
  plain percent : Mode
  in_width : Bool → ℕ → Mode

-- The cases of the `switch` on the conversion character.
pub data Case : Type 0 where
  char text signed decimal hex upper_hex pointer literal unknown : Case

unfoldable pub classify : ℕ → Case
classify c =
    if c == b'c'
    then char
    else if c == b's'
    then text
    else if c == b'd' || c == b'i'
    then signed
    else if c == b'u'
    then decimal
    else if c == b'x'
    then hex
    else if c == b'X'
    then upper_hex
    else if c == b'p'
    then pointer
    else if c == b'%'
    then literal
    else unknown

-- The text "(null)".
abbrev pub null_text : List ℕ
null_text = b'(' ∷ b'n' ∷ b'u' ∷ b'l' ∷ b'l' ∷ b')' ∷ []

module _ {S : Type 0} (putc : ℕ → S → S) where
  -- `puts_buf`
  unfoldable pub puts : List ℕ → S → S
  puts [] s = s
  puts (c ∷ rest) s = puts rest (putc c s)

  -- `for (i = field; i < width; i++) putc_buf(…, c)`, with the rounds that are left.
  unfoldable pub pad : ℕ → ℕ → S → S
  pad zero c s = s
  pad (suc n) c s = pad n c (putc c s)

  -- `sign` is 0 for none.
  abbrev put_sign : ℕ → S → S
  put_sign sign s = if sign == 0 then s else putc sign s

  unfoldable pub emit_num : List ℕ → (sign width : ℕ) → Bool → S → S
  emit_num number sign width padding s =
      let field = length number + (if sign == 0 then 0 else 1) in
      if padding
      then puts number (pad (width - field) b'0' (put_sign sign s))
      else puts number (put_sign sign (pad (width - field) b' ' s))

  -- The cases `u`, `x`, `X`, and the end of `p`.
  unfoldable pub emit_unsigned : (base : ℕ) → (ℕ → ℕ) → Bool → ℕ → ℕ → S → Option S
  emit_unsigned base change padding width v s =
      digits v base >>= λ number. some (emit_num (map change number) 0 width padding s)

  -- The cases `d` and `i`.
  unfoldable pub emit_signed : Bool → ℕ → ℕ → S → Option S
  emit_signed padding width v s = digits (if is_negative v then negate v else v) 10 >>= λ number.
      some (emit_num number (if is_negative v then b'-' else 0) width padding s)

  -- One conversion: the body of each `case`.
  unfoldable pub run_case : Case → Bool → ℕ → ℕ → List Arg → S → Option (List Arg × S)
  run_case char padding width c args s = next_word args >>= λ a. some (a.1, putc (a.0 % 2 ^ 8) s)
  run_case text padding width c args s =
      next_string args >>= λ a. some (a.1, puts (elim (a.0) [ none ↦ null_text | some t ↦ t ]) s)
  run_case signed padding width c args s =
      next_word args >>= λ a. emit_signed padding width (a.0) s >>= λ s'. some (a.1, s')
  run_case decimal padding width c args s = next_word args >>= λ a.
      emit_unsigned 10 (λ d. d) padding width (a.0) s >>= λ s'. some (a.1, s')
  run_case hex padding width c args s = next_word args >>= λ a.
      emit_unsigned 16 (λ d. d) padding width (a.0) s >>= λ s'. some (a.1, s')
  run_case upper_hex padding width c args s = next_word args >>= λ a.
      emit_unsigned 16 to_upper padding width (a.0) s >>= λ s'. some (a.1, s')
  run_case pointer padding width c args s = next_word args >>= λ a.
      emit_unsigned 16 (λ d. d) padding width (a.0) (puts (b'0' ∷ b'x' ∷ []) s) >>= λ s'.
      some (a.1, s')
  run_case literal padding width c args s = some (args, putc b'%' s)
  run_case unknown padding width c args s = some (args, putc c (putc b'%' s))

  unfoldable pub convert : Bool → ℕ → ℕ → List Arg → S → Option (List Arg × S)
  convert padding width c = run_case (classify c) padding width c

  -- The loop over the format. The end of the format ends it in every mode.
  unfoldable pub format : List ℕ → Mode → List Arg → S → Option S
  format [] mode args s = some s
  format (c ∷ rest) plain args s = elim (c == b'%') [
    | true ↦ format rest percent args s
    | false ↦ format rest plain args (putc c s)
  ]
  format (c ∷ rest) percent args s = elim (c == b'0') [
    | true ↦ format rest (in_width true 0) args s
    | false ↦ elim (is_digit c) [
      | true ↦ format rest (in_width false (c - b'0')) args s
      | false ↦ convert false 0 c args s >>= λ a. format rest plain (a.0) (a.1)
    ]
  ]
  format (c ∷ rest) (in_width padding w) args s = elim (is_digit c) [
    | true ↦ elim (ltb (w * 10 + (c - b'0')) (2 ^ 31)) [
      | true ↦ format rest (in_width padding (w * 10 + (c - b'0'))) args s
      | false ↦ none
    ]
    | false ↦ convert padding w c args s >>= λ a. format rest plain (a.0) (a.1)
  ]

-- The buffer that is written, and `total`.
pub record Out : Type 0 where
  pub memory : Memory
  pub total : ℕ

-- `putc_buf`
pub putc_buf : (buf size : ℕ) → ℕ → Out → Out
putc_buf buf size c o = record {
  memory = if ltb (add32 o.total 1) size then update o.memory (buf + o.total) c else o.memory;
  total = add32 o.total 1;
}

-- The end of `kvsnprintf`: the NUL, and the result.
pub terminate : (buf size : ℕ) → Out → Memory × ℕ
terminate buf size o = (
  if ltb 0 size
      then update o.memory (buf + (if ltb o.total size then o.total else size - 1)) 0
      else o.memory,
  o.total,
)

-- `kvsnprintf`: the memory afterwards, and the result as a 32-bit pattern.
pub kvsnprintf : (buf size : ℕ) → List ℕ → List Arg → Memory → Option (Memory × ℕ)
kvsnprintf buf size fmt args m =
    format (putc_buf buf size) fmt plain args (record { memory = m; total = 0 }) >>= λ o.
    some (terminate buf size o)
