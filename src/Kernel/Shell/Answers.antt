-- ===== src/Kernel/Shell/Answers.antt =====
-- What a line of the shell is answered, byte by byte.
use mathlib.Core.List.{append-nil, append_assoc, map-id}
use munux.Common.{
  ℕ, zero, suc, ◌+◌, ◌^◌, ◌≤◌, ◌<◌, ◌≡◌, ◌≢◌, refl, ap, ◌∙◌, ◌⊎◌, inl, inr, some, List, [], ◌∷◌,
  ◌++◌, take, drop, length, length-append, All, All-append, arith, Bool-cases,
}
use munux.Common.Text.{bytes_of}
use munux.Common.Memory.{Memory}
use munux.Common.Int.{is_zero, is_zero_iff}
use munux.Libk.Ctype.{is_digit}
use munux.Libk.Conv.{digits}
use munux.Libk.Conv.Digits.{IsDigitOf, value_of, digits_lem}
use munux.Libk.Strings.{strcmp}
use munux.Libk.Strings.Order.{IsText, strcmp_iff}
use munux.Libk.Printf.{word, emit_unsigned, run_case, convert, format, classify}
use munux.Libk.Printf.Bounded.{render}
use munux.Libk.Printf.Layout.{emit_digits}
use munux.Kernel.Terminal.{clear}
use munux.Kernel.Console.{Console, klog, klog-append, klog_nothing, kprintf}
use munux.Kernel.Boot.Detect.{not_nul}
use munux.Kernel.Checks.Text.{string_at-kvsnprintf}
use munux.Kernel.Shell.{shell_exec, about_text, kernel_text}
use munux.Kernel.Shell.Exec.{IsUnknown, IsText-take, shell_exec_lem}

abbrev ticks_start : List ℕ
ticks_start = bytes_of "Ticks do timer desde o boot: "

-- The bytes that a line other than "clear" is answered, while the counter of the timer is `ticks`.
pub data Answers (line : List ℕ) (ticks : ℕ) : List ℕ → Type 0 where
  nothing : line ≡ [] → Answers line ticks []
  commands :
      line ≡ bytes_of "help"
      → Answers line ticks (bytes_of "Comandos: help, clear, about, ticks, echo <texto>\n")
  system :
      line ≡ bytes_of "about"
      → Answers line ticks (
          bytes_of "Munux OS "
          ++ (0xe2
              ∷ 0x80
              ∷ 0x94
              ∷ (bytes_of " flavor de proposito geral do ecossistema Munux.\n"
                  ++ bytes_of "Kernel poliglota C + Assembly + Rust (no_std).\n")))
  count :
      (number : List ℕ)
      → line ≡ bytes_of "ticks"
      → value_of 10 number ≡ ticks
      → All (IsDigitOf 10) number
      → 1 ≤ length number
      → Answers line ticks (bytes_of "Ticks do timer desde o boot: " ++ (number ++ b'\n' ∷ []))
  repetition :
      (text : List ℕ) → line ≡ bytes_of "echo " ++ text → Answers line ticks (text ++ b'\n' ∷ [])
  refusal :
      IsUnknown line
      → Answers line ticks (bytes_of "comando nao encontrado: " ++ (line ++ b'\n' ∷ []))

-- The text of `ticks`.
render_ticks :
    (v : ℕ) (number : List ℕ)
    → digits v 10 ≡ some number
    → render (bytes_of "Ticks do timer desde o boot: %u\n") (word v ∷ [])
      ≡ some (ticks_start ++ (number ++ b'\n' ∷ []))
unfolding render format convert run_case classify emit_unsigned is_digit
render_ticks v number e =
    rw (e, map-id number, emit_digits number ticks_start)
      (ap some (append_assoc ticks_start number (b'\n' ∷ [])))

ticks_lem :
    (ticks buf : ℕ) (m : Memory) (s : Console)
    → ticks < 2 ^ 32
    → (number : List ℕ) × (value_of 10 number ≡ ticks)
      × All (IsDigitOf 10) number
      × (1 ≤ length number)
      × (kprintf buf (bytes_of "Ticks do timer desde o boot: %u\n") (word ticks ∷ []) m s
          ≡ some (klog (ticks_start ++ (number ++ b'\n' ∷ [])) s))
unfolding kprintf
ticks_lem ticks buf m s small =
    let (number, e, value, pos, len, all, _) =
      digits_lem ticks 10 (omega arith) (omega arith) small in
    let whole = ticks_start ++ (number ++ b'\n' ∷ []) in
    let size : length whole ≡ 30 + length number =
      omega (arith, length-append number (b'\n' ∷ [])) in
    let (m', run, shown, _) =
      string_at-kvsnprintf whole [] 256 buf (bytes_of "Ticks do timer desde o boot: %u\n")
        (word ticks ∷ []) m (rw append-nil (render_ticks ticks number e))
        (rw append-nil (omega (arith, size, len))) (rw append-nil (omega (arith, size, len)))
        (omega arith)
        (All-append (λ c. c ≢ 0) ticks_start (number ++ b'\n' ∷ []) (ground arith)
          (All-append (λ c. c ≢ 0) number (b'\n' ∷ []) (not_nul number all) (ground arith))) in
    (number, value, all, pos, rw (run, shown) refl)

take-drop : (n : ℕ) (xs : List ℕ) → xs ≡ take n xs ++ drop n xs
take-drop zero xs = refl
take-drop (suc n) [] = refl
take-drop (suc n) (x ∷ xs) = ap (x ∷◌) (take-drop n xs)

-- Two strings are the same or not.
text_cases : (xs ys : List ℕ) → IsText xs → IsText ys → (xs ≡ ys) ⊎ (xs ≢ ys)
text_cases xs ys tx ty =
    let zero_iff = is_zero_iff (strcmp xs ys) in
    let equal_iff = strcmp_iff xs ys tx ty in
    elim (Bool-cases (is_zero (strcmp xs ys))) [
      | inl agrees ↦ inl (equal_iff.0 (zero_iff.0 agrees))
      | inr differs ↦ inr (λ e. let agrees = zero_iff.1 (equal_iff.1 e) in absurd (cc))
    ]

answered :
    (line : List ℕ) (ticks buf : ℕ) (m : Memory) (s : Console)
    → IsText line
    → ticks < 2 ^ 32
    → line ≢ bytes_of "clear"
    → (answer : List ℕ) × Answers line ticks answer
      × (shell_exec line ticks buf m s ≡ some (klog answer s))
answered line ticks buf m s t small not_clear =
    let (empty, help, about, _, counts, echoes, other) = shell_exec_lem line ticks buf m s t in
    elim (text_cases line [] t tt) [
      | inl e ↦ ([], nothing e, empty e ∙ ap some (klog_nothing s))
      | inr not_empty ↦ elim (text_cases line (bytes_of "help") t (ground arith)) [
        | inl e ↦ (_, commands e, help e)
        | inr not_help ↦ elim (text_cases line (bytes_of "about") t (ground arith)) [
          | inl e ↦ (_, system e, about e ∙ ap some (klog-append about_text kernel_text s))
          | inr not_about ↦ elim (text_cases line (bytes_of "ticks") t (ground arith)) [
            | inl e ↦
                let (number, value, all, pos, run) = ticks_lem ticks buf m s small in
                (_, count number e value all pos, counts e ∙ run)
            | inr not_ticks ↦
                elim (text_cases (take 5 line) (bytes_of "echo ") (IsText-take 5 line t)
                  (ground arith)) [
                    | inl e ↦
                        let whole : line ≡ bytes_of "echo " ++ drop 5 line =
                          take-drop 5 line ∙ ap (λ xs. xs ++ drop 5 line) e in
                        (
                          drop 5 line ++ b'\n' ∷ [],
                          repetition (drop 5 line) whole,
                          echoes (drop 5 line) whole
                              ∙ ap some (klog-append (drop 5 line) (bytes_of "\n") s),
                        )
                    | inr not_echo ↦
                        let u : IsUnknown line = record {
                          not_empty = not_empty;
                          not_help = not_help;
                          not_clear = not_clear;
                          not_about = not_about;
                          not_ticks = not_ticks;
                          not_echo = not_echo;
                        } in
                        (
                          bytes_of "comando nao encontrado: " ++ (line ++ b'\n' ∷ []),
                          refusal u,
                          other u
                              ∙ ap some (
                                  klog-append line (bytes_of "\n")
                                    (klog (bytes_of "comando nao encontrado: ") s)
                                  ∙ klog-append (bytes_of "comando nao encontrado: ")
                                      (line ++ b'\n' ∷ []) s),
                        )
                  ]
          ]
        ]
      ]
    ]

-- `shell_exec` on every line of bytes other than NUL, for every counter of 32 bits, ends: "clear"
-- clears the screen and sends nothing; any other line has its answer, which is what is logged.
-- The answer to "ticks" has the decimal digits of the counter, whatever the array of `kprintf`
-- held; the answer to a line that is no command names the line.
pub shell_exec-Answers :
    (line : List ℕ) (ticks buf : ℕ) (m : Memory) (s : Console)
    → IsText line
    → ticks < 2 ^ 32
    → ((line ≡ bytes_of "clear")
        × (shell_exec line ticks buf m s ≡ some (record s { terminal = clear s.terminal })))
      ⊎ ((line ≢ bytes_of "clear")
          × (answer : List ℕ) × Answers line ticks answer
          × (shell_exec line ticks buf m s ≡ some (klog answer s)))
shell_exec-Answers line ticks buf m s t small =
    let (_, _, _, clears, _, _, _) = shell_exec_lem line ticks buf m s t in
    elim (text_cases line (bytes_of "clear") t (ground arith)) [
      | inl e ↦ inl (e, clears e)
      | inr not_clear ↦
          let (answer, why, run) = answered line ticks buf m s t small not_clear in
          inr (not_clear, answer, why, run)
    ]
