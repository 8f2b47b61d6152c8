-- ===== src/Libk/Printf/Layout.antt =====
-- How the engine lays out a number, and that it agrees with `itoa` and `utoa`.
use mathlib.Core.Option
use mathlib.Core.List.{append-nil, append_assoc, map-id}
use munux.Common.{
  ℕ, zero, suc, ◌+◌, ◌-◌, ◌≡◌, refl, sym, ◌∙◌, ap, inl, inr, Bool, true, false, Option, none, some,
  List, [], ◌∷◌, ◌++◌, map, ◌==◌, max, if◌then◌else◌, length, length-append, replicate,
  length-replicate, arith, Bool-cases,
}
use munux.Libk.Ctype.{is_digit}
use munux.Libk.Conv.{digits, negate, is_negative}
use munux.Libk.Conv.Text.{itoa_text}
use munux.Libk.Printf.{
  Arg, word, ◌>>=◌, puts, pad, put_sign, emit_num, emit_signed, emit_unsigned, classify, run_case,
  convert, format,
}
use munux.Libk.Printf.Bounded.{append_char, render}

puts-append : (xs s : List ℕ) → puts append_char xs s ≡ s ++ xs
unfolding puts
puts-append [] s = sym (append-nil s)
puts-append (x ∷ xs) s = puts-append xs (s ++ x ∷ []) ∙ append_assoc s (x ∷ []) xs

pad-append : (n c : ℕ) (s : List ℕ) → pad append_char n c s ≡ s ++ replicate n c
unfolding pad
pad-append zero c s = sym (append-nil s)
pad-append (suc n) c s = pad-append n c (s ++ c ∷ []) ∙ append_assoc s (c ∷ []) (replicate n c)

abbrev pub sign_text : ℕ → List ℕ
sign_text sign = if sign == 0 then [] else sign ∷ []

put_sign-append : (sign : ℕ) (s : List ℕ) → put_sign append_char sign s ≡ s ++ sign_text sign
put_sign-append sign s = elim (Bool-cases (sign == 0)) [
  | inl e ↦ rw e (sym (append-nil s))
  | inr e ↦ rw e
]

sign_length : (sign : ℕ) → length (sign_text sign) ≡ (if sign == 0 then 0 else 1)
sign_length sign = ground arith

abbrev zero_char : ℕ
zero_char = b'0'

abbrev blank_char : ℕ
blank_char = b' '

-- The two layouts of a number with `fill` places to fill.
abbrev pub field_text : Bool → (fill sign : ℕ) → List ℕ → List ℕ
field_text true fill sign number = sign_text sign ++ (replicate fill b'0' ++ number)
field_text false fill sign number = replicate fill b' ' ++ (sign_text sign ++ number)

emit_num-append :
    (number : List ℕ) (sign width : ℕ) (padding : Bool) (s : List ℕ)
    → emit_num append_char number sign width padding s
      ≡ s ++ field_text padding (width - (length number + (if sign == 0 then 0 else 1))) sign number
unfolding emit_num
emit_num-append number sign width true s =
    rw (put_sign-append, pad-append, puts-append) (simp append_assoc)
emit_num-append number sign width false s =
    rw (pad-append, put_sign-append, puts-append) (simp append_assoc)

length-field_text :
    (padding : Bool) (fill sign : ℕ) (number : List ℕ)
    → length (field_text padding fill sign number)
      ≡ fill + (length (sign_text sign) + length number)
length-field_text true fill sign number = omega (
  arith,
  length-append (sign_text sign) (replicate fill b'0' ++ number),
  length-append (replicate fill b'0') number,
  length-replicate fill zero_char,
)
length-field_text false fill sign number = omega (
  arith,
  length-append (replicate fill b' ') (sign_text sign ++ number),
  length-append (sign_text sign) number,
  length-replicate fill blank_char,
)

-- A number is emitted behind what stands there. With the zero flag the sign stands before the
-- zeros, else the blanks before the sign, and the digits are last; the field is as wide as asked
-- for, or as long as the sign and the digits if that is more.
pub emit_num_field :
    (number : List ℕ) (sign width : ℕ) (padding : Bool) (s : List ℕ)
    → (fill : ℕ) × (emit_num append_char number sign width padding s
        ≡ s ++ field_text padding fill sign number)
      × (length (field_text padding fill sign number)
          ≡ max width (length (sign_text sign) + length number))
emit_num_field number sign width padding s = (
  width - (length number + (if sign == 0 then 0 else 1)),
  emit_num-append number sign width padding s,
  omega (
    arith,
    length-field_text padding (width - (length number + (if sign == 0 then 0 else 1))) sign number,
    sign_length sign,
  ),
)

-- A number with neither sign nor width goes behind what stands there.
pub emit_digits : (number s : List ℕ) → emit_num append_char number 0 0 false s ≡ s ++ number
emit_digits number s =
    let none_left : 0 - (length number + 0) ≡ 0 = omega arith in
    emit_num-append number 0 0 false s ∙ rw none_left

-- With no width asked for there is nothing to fill.
emit_plain :
    (number : List ℕ) (sign : ℕ)
    → emit_num append_char number sign 0 false [] ≡ sign_text sign ++ number
emit_plain number sign =
    let none_left : 0 - (length number + (if sign == 0 then 0 else 1)) ≡ 0 = omega arith in
    emit_num-append number sign 0 false [] ∙ rw none_left

-- `%d` prints what `itoa` writes in base 10, `%u` and `%x` what `utoa` writes in base 10 and 16.
pub render_number :
    (v : ℕ)
    → (render (b'%' ∷ b'd' ∷ []) (word v ∷ []) ≡ itoa_text v 10)
      × (render (b'%' ∷ b'u' ∷ []) (word v ∷ []) ≡ digits v 10)
      × (render (b'%' ∷ b'x' ∷ []) (word v ∷ []) ≡ digits v 16)
unfolding render format convert run_case classify emit_signed emit_unsigned itoa_text is_digit
render_number v = (
  elim (Bool-cases (is_negative v)) [
    | inl neg ↦ rw neg (negative (digits (negate v) 10))
    | inr pos ↦ rw pos (positive (digits v 10))
  ],
  unsigned (digits v 10),
  unsigned (digits v 16),
)
  where
    unsigned :
        (o : Option (List ℕ))
        → ◌>>=◌ {A = List Arg × List ℕ} {B = List ℕ}
            (◌>>=◌ {B = List Arg × List ℕ}
              (o >>= λ number. some (emit_num append_char (map (λ d. d) number) 0 0 false []))
              (λ s'. some ([], s')))
            (λ a. some a.1)
          ≡ o
    unsigned none = refl
    unsigned (some number) = ap some (emit_plain (map (λ d. d) number) 0 ∙ map-id number)

    negative :
        (o : Option (List ℕ))
        → ◌>>=◌ {A = List Arg × List ℕ} {B = List ℕ}
            (◌>>=◌ {B = List Arg × List ℕ}
              (o >>= λ number. some (emit_num append_char number 45 0 false []))
              (λ s'. some ([], s')))
            (λ a. some a.1)
          ≡ Option.map (λ number. 45 ∷ number) o
    negative none = refl
    negative (some number) = ap some (emit_plain number 45)

    positive :
        (o : Option (List ℕ))
        → ◌>>=◌ {A = List Arg × List ℕ} {B = List ℕ}
            (◌>>=◌ {B = List Arg × List ℕ}
              (o >>= λ number. some (emit_num append_char number 0 0 false []))
              (λ s'. some ([], s')))
            (λ a. some a.1)
          ≡ o
    positive none = refl
    positive (some number) = ap some (emit_plain number 0)
