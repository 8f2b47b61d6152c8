-- ===== src/Libk/Conv/Tests.antt =====
-- Runs of the conversions, and their theorems at concrete values.
use munux.Common.{ℕ, ◌-◌, ◌^◌, ◌≤◌, ◌≡◌, ◌≢◌, refl, none, some, List, [], ◌∷◌, length, All, arith}
use munux.Common.Memory.{Memory}
use munux.Libk.Ctype.{is_digit, is_space}
use munux.Libk.Conv.{digit_loop, digits, store_text, itoa, value_loop, after_spaces, signed, atoi}
use munux.Libk.Conv.Digits.{IsDigitOf, NoLeadingZero, value_of, digits_lem}
use munux.Libk.Conv.Roundtrip.{atoi-itoa}

abbrev blank : Memory
blank = λ _. 7

-- `utoa(305419896u, buf, 16)` is "12345678".
hexadecimal :
    digits 305419896 16 ≡ some (b'1' ∷ b'2' ∷ b'3' ∷ b'4' ∷ b'5' ∷ b'6' ∷ b'7' ∷ b'8' ∷ [])
unfolding digits digit_loop
hexadecimal = refl

-- `atoi("  -123")` is -123.
spaces_and_sign : atoi (32 ∷ 32 ∷ b'-' ∷ b'1' ∷ b'2' ∷ b'3' ∷ []) ≡ some (2 ^ 32 - 123)
unfolding atoi after_spaces value_loop signed is_space is_digit
spaces_and_sign = refl

-- "-2147483648" is what `itoa` writes for INT_MIN.
least :
    atoi (b'-' ∷ b'2' ∷ b'1' ∷ b'4' ∷ b'7' ∷ b'4' ∷ b'8' ∷ b'3' ∷ b'6' ∷ b'4' ∷ b'8' ∷ []) ≡ none
unfolding atoi after_spaces value_loop signed is_space is_digit
least = refl

digits_lem_example :
    (text : List ℕ) × (digits 255 2 ≡ some text)
    × (value_of 2 text ≡ 255)
    × (1 ≤ length text)
    × (length text ≤ 32)
    × All (IsDigitOf 2) text
    × (◌≢◌ {A = ℕ} 255 0 → NoLeadingZero text)
digits_lem_example = digits_lem 255 2 (omega arith) (omega arith) (omega arith)

atoi-itoa_example :
    (text : List ℕ) × (itoa (2 ^ 32 - 42) 100 10 blank ≡ some (store_text text 100 blank))
    × (atoi text ≡ some (2 ^ 32 - 42))
atoi-itoa_example = atoi-itoa (2 ^ 32 - 42) 100 blank (omega arith)
