-- ===== src/Libk/Conv/Roundtrip.antt =====
-- `atoi` reads back what `itoa` wrote.
use munux.Common.{
  ℕ, ◌+◌, ◌-◌, ◌*◌, ◌%◌, ◌^◌, ◌≤◌, ◌<◌, ◌≡◌, refl, ◌∙◌, inl, inr, true, ◌&&◌, none, some, List, [],
  ◌∷◌, ◌==◌, ltb, leb, if◌then◌else◌, get_or, length, All, arith, Bool-cases, every_below,
  of_every_below,
}
use munux.Common.Memory.{Memory}
use munux.Libk.Ctype.{is_digit, is_space}
use munux.Libk.Conv.{
  digit_chars, store_text, itoa, negate, is_negative, value_loop, signed, after_spaces, atoi,
}
use munux.Libk.Conv.Digits.{IsDigitOf, digit_value, value_from, value_of, digits_lem}
use munux.Libk.Conv.Text.{itoa_text, itoa-store_text}

decimal_table :
    every_below 10 (λ d.
      let c = get_or digit_chars d 0 in
      (is_digit c && (c - b'0' == digit_value c)) && ((leb b'0' c) && (leb c b'9')))
    ≡ true
unfolding every_below is_digit digit_value
decimal_table = refl

-- A decimal digit, as `atoi` sees it.
pub decimal :
    (c : ℕ)
    → IsDigitOf 10 c
    → (is_digit c ≡ true) × (c - b'0' ≡ digit_value c) × (b'0' ≤ c) × (c ≤ b'9')
decimal c (d, h, e) =
    let t =
      of_every_below 10
        (λ d.
          let c = get_or digit_chars d 0 in
          (is_digit c && (c - b'0' == digit_value c)) && ((leb b'0' c) && (leb c b'9')))
        d decimal_table h in
    rw e (ground arith)

pub value_from-grows : (acc : ℕ) (text : List ℕ) → acc ≤ value_from 10 acc text
unfolding value_from
value_from-grows acc [] = omega arith
value_from-grows acc (c ∷ rest) = omega (arith, value_from-grows (acc * 10 + digit_value c) rest)

-- On a row of decimal digits the loop computes their value, or overflows an `int`.
value_loop_lem :
    (text : List ℕ) (acc : ℕ)
    → All (IsDigitOf 10) text
    → acc < 2 ^ 31
    → value_loop text acc
      ≡ (if ltb (value_from 10 acc text) (2 ^ 31) then some (value_from 10 acc text) else none)
unfolding value_loop value_from
value_loop_lem [] acc all small = ground arith
value_loop_lem (c ∷ rest) acc (h, all) small =
    let (is_one, value, lo, hi) = decimal c h in
    rw (is_one, value)
      (elim (Bool-cases (ltb (acc * 10 + digit_value c) (2 ^ 31))) [
        | inl fits ↦ rw fits (value_loop_lem rest (acc * 10 + digit_value c) all (ground arith))
        | inr over ↦ ground (arith, value_from-grows (acc * 10 + digit_value c) rest)
      ])

-- A text of digits has no blanks or sign to skip.
atoi-digits :
    (text : List ℕ)
    → All (IsDigitOf 10) text
    → 1 ≤ length text
    → atoi text ≡ (if ltb (value_of 10 text) (2 ^ 31) then some (value_of 10 text) else none)
unfolding atoi after_spaces is_space
atoi-digits [] all h = absurd (omega arith)
atoi-digits (c ∷ rest) (d, all) h =
    let (_, _, lo, hi) = decimal c d in
    let r = value_loop_lem (c ∷ rest) 0 (d, all) (omega arith) in ground arith

atoi-negative :
    (text : List ℕ)
    → All (IsDigitOf 10) text
    → atoi (b'-' ∷ text) ≡ (
        if ltb (value_of 10 text) (2 ^ 31)
        then some ((2 ^ 32 - value_of 10 text) % 2 ^ 32)
        else none)
unfolding atoi after_spaces is_space signed
atoi-negative text all =
    rw (value_loop_lem text 0 all (omega arith))
      (elim (Bool-cases (ltb (value_of 10 text) (2 ^ 31))) [
        | inl fits ↦ rw fits
        | inr over ↦ rw over
      ])

-- The text that `itoa` writes in base 10 is read back by `atoi` as the same number, but for
-- INT_MIN, whose magnitude overflows the `int` in which `atoi` accumulates.
pub atoi-itoa :
    (value buf : ℕ) (m : Memory)
    → value < 2 ^ 32
    → (text : List ℕ) × (itoa value buf 10 m ≡ some (store_text text buf m))
      × (atoi text ≡ (if value == 2 ^ 31 then none else some value))
atoi-itoa value buf m small = elim (Bool-cases (is_negative value)) [
  | inl neg ↦
      let (text, e, v, pos, _, all, _) =
        digits_lem (negate value) 10 (omega arith) (omega arith) (omega arith) in
      (
        b'-' ∷ text,
        itoa-store_text value buf 10 m (omega arith) (omega arith)
            ∙ (unfold itoa_text in rw (neg, e)),
        atoi-negative text all ∙ rw v (ground arith),
      )
  | inr nonneg ↦
      let (text, e, v, pos, _, all, _) = digits_lem value 10 (omega arith) (omega arith) small in
      (
        text,
        itoa-store_text value buf 10 m (omega arith) (omega arith)
            ∙ (unfold itoa_text in rw (nonneg, e)),
        atoi-digits text all pos ∙ rw v (ground arith),
      )
]
