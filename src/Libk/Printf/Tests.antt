-- ===== src/Libk/Printf/Tests.antt =====
-- Runs of the formatting engine, and its theorems at concrete arguments.
use munux.Common.{ℕ, ◌≡◌, refl, none, some, List, [], ◌∷◌, arith}
use munux.Common.Memory.{Memory}
use munux.Libk.Ctype.{is_digit}
use munux.Libk.Conv.{digit_loop, digits}
use munux.Libk.Conv.Text.{itoa_text}
use munux.Libk.Printf.{
  word, puts, pad, emit_num, emit_unsigned, classify, run_case, convert, format, kvsnprintf,
}
use munux.Libk.Printf.Bounded.{render, Written, kvsnprintf_lem}
use munux.Libk.Printf.Layout.{render_number}

abbrev abcdef : List ℕ
abcdef = b'a' ∷ b'b' ∷ b'c' ∷ b'd' ∷ b'e' ∷ b'f' ∷ []

-- "[%08x]" of 0x1234 is "[00001234]".
zero_padded :
    render (b'[' ∷ b'%' ∷ b'0' ∷ b'8' ∷ b'x' ∷ b']' ∷ []) (word 0x1234 ∷ [])
    ≡ some (b'[' ∷ b'0' ∷ b'0' ∷ b'0' ∷ b'0' ∷ b'1' ∷ b'2' ∷ b'3' ∷ b'4' ∷ b']' ∷ [])
unfolding render format convert run_case classify emit_unsigned emit_num puts pad is_digit digits
    digit_loop
zero_padded = refl

-- `%` at the end of the format, a missing argument, and an argument of another kind.
edges :
    (render (b'a' ∷ b'%' ∷ []) [] ≡ some (b'a' ∷ []))
    × (render (b'%' ∷ b'd' ∷ []) [] ≡ none)
    × (render (b'%' ∷ b's' ∷ []) (word 1 ∷ []) ≡ none)
unfolding render format convert run_case classify is_digit
edges = (refl, refl, refl)

-- `char tiny[4]` and "abcdef": the result is 6 and the text "abc".
kvsnprintf_lem_example :
    (m : Memory) × (kvsnprintf 100 4 abcdef [] (λ _. 7) ≡ some (m, 6))
    × Written 100 4 (λ _. 7) abcdef m
kvsnprintf_lem_example =
    kvsnprintf_lem 100 4 abcdef [] (λ _. 7) abcdef (unfold render format in refl) (omega arith)

render_number_example :
    (render (b'%' ∷ b'd' ∷ []) (word 42 ∷ []) ≡ itoa_text 42 10)
    × (render (b'%' ∷ b'u' ∷ []) (word 42 ∷ []) ≡ digits 42 10)
    × (render (b'%' ∷ b'x' ∷ []) (word 42 ∷ []) ≡ digits 42 16)
render_number_example = render_number 42
