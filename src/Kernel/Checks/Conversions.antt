-- ===== src/Kernel/Checks/Conversions.antt =====
-- The test of libk at the start passes.
use munux.Common.{ℕ, true, ◌+◌, ◌-◌, ◌≤◌, ◌<◌, ◌≡◌, ◌^◌, refl, ◌∙◌, ◌⊎◌, some, List, [], ◌∷◌, arith}
use munux.Common.Int.{◌-ℤ◌, is_zero}
use munux.Common.Text.{bytes_of}
use munux.Common.Memory.{Memory}
use munux.Libk.Ctype.{is_digit, is_upper, is_lower, is_space, to_upper, to_lower}
use munux.Libk.Conv.{
  utoa, itoa, digits, digit_loop, store_text, atoi, value_loop, signed, after_spaces,
}
use munux.Libk.Conv.Text.{itoa_text, itoa-store_text}
use munux.Libk.Strings.{strcmp, strncmp}
use munux.Libk.Printf.{
  word, puts, pad, emit_num, emit_unsigned, emit_signed, classify, run_case, convert, format,
}
use munux.Libk.Printf.Bounded.{render}
use munux.Kernel.Terminal.{Terminal}
use munux.Kernel.Console.{Console, klog, string_at}
use munux.Kernel.Checks.{
  done, expect, check_numbers, check_classes, check_format, libk_selfcheck, line_format, line_args,
}
use munux.Kernel.Checks.Text.{Apart, string_at-store_text, string_at-kvsnprintf}

rendered :
    (render line_format line_args ≡ some (bytes_of "-5 7 ff ok A %"))
    × (render (bytes_of "[%08x]") (word 0x1234 ∷ []) ≡ some (bytes_of "[00001234]"))
    × (render (bytes_of "abcdef") [] ≡ some (bytes_of "abcdef"))
unfolding render format convert run_case classify emit_unsigned emit_signed emit_num puts pad
    is_digit digits digit_loop
rendered = (refl, refl, refl)

-- Where an array holds what is expected, the test passes.
expect_lem :
    (size p : ℕ) (text msg : List ℕ) (m : Memory) (t : Terminal)
    → string_at size p m ≡ some text
    → is_zero (strcmp text text) ≡ true
    → expect size p text msg m t ≡ done tt
expect_lem size p text msg m t e same = rw (e, same) refl

check_numbers_lem :
    (buf : ℕ) (m : Memory) (t : Terminal)
    → (m' : Memory) × (check_numbers buf m t ≡ done m') × Apart buf 12 m m'
unfolding check_numbers utoa digits digit_loop itoa_text strcmp is_zero ◌-ℤ◌
check_numbers_lem buf m t =
    let m1 = store_text (bytes_of "0") buf m in
    let m2 = store_text (bytes_of "12345678") buf m1 in
    let m3 = store_text (bytes_of "-42") buf m2 in
    let (e1, a1) = string_at-store_text (bytes_of "0") 12 buf m (ground arith) (omega arith) in
    let (e2, a2) =
      string_at-store_text (bytes_of "12345678") 12 buf m1 (ground arith) (omega arith) in
    let (e3, a3) = string_at-store_text (bytes_of "-42") 12 buf m2 (ground arith) (omega arith) in
    let third : itoa (2 ^ 32 - 42) buf 10 m2 ≡ some m3 =
      itoa-store_text (2 ^ 32 - 42) buf 10 m2 (omega arith) (omega arith) in
    (m3, rw (e1, e2, third, e3) refl, λ q out. a3 q out ∙ (a2 q out ∙ a1 q out))

check_classes_lem : (t : Terminal) → check_classes t ≡ done tt
unfolding check_classes atoi after_spaces value_loop signed is_space is_digit to_upper to_lower
    is_upper is_lower
check_classes_lem t = refl

check_format_lem :
    (sb tiny : ℕ) (m : Memory) (t : Terminal)
    → (m' : Memory) × (check_format sb tiny m t ≡ done m')
      × ((q : ℕ) → (q < sb) ⊎ (sb + 64 ≤ q) → (q < tiny) ⊎ (tiny + 4 ≤ q) → m' q ≡ m q)
unfolding check_format strcmp ◌-ℤ◌
check_format_lem sb tiny m t =
    let (line, padded, cut) = rendered in
    let (m1, run1, e1, a1) =
      string_at-kvsnprintf (bytes_of "-5 7 ff ok A %") [] 64 sb line_format line_args m line
        (omega arith) refl (omega arith) (ground arith) in
    let (m2, run2, e2, a2) =
      string_at-kvsnprintf (bytes_of "[00001234]") [] 64 sb (bytes_of "[%08x]") (word 0x1234 ∷ [])
        m1 padded (omega arith) refl (omega arith) (ground arith) in
    let (m3, run3, e3, a3) =
      string_at-kvsnprintf (bytes_of "abc") (bytes_of "def") 4 tiny (bytes_of "abcdef") [] m2 cut
        (omega arith) refl (omega arith) (ground arith) in
    (
      m3,
      rw (run1, e1, run2, e2, run3, e3) refl,
      λ q apart apart'. a3 q apart' ∙ (a2 q apart ∙ a1 q apart),
    )

-- Whatever memory, the screen and the log hold, and wherever its three arrays stand, `libk_selfcheck`
-- neither panics nor does it meet undefined behaviour: it logs that `libk` is right, and changes no
-- byte outside the 12, 64 and 4 bytes of its arrays.
pub libk_selfcheck_lem :
    (buf sb tiny : ℕ) (m : Memory) (s : Console)
    → (m' : Memory) × (libk_selfcheck buf sb tiny m s
        ≡ done (m', klog (bytes_of "[libk] string/conv/ctype/printf: OK\n") s))
      × ((q : ℕ)
          → (q < buf) ⊎ (buf + 12 ≤ q)
          → (q < sb) ⊎ (sb + 64 ≤ q)
          → (q < tiny) ⊎ (tiny + 4 ≤ q)
          → m' q ≡ m q)
unfolding libk_selfcheck strcmp strncmp ◌-ℤ◌
libk_selfcheck_lem buf sb tiny m s =
    let (m1, numbers, a1) = check_numbers_lem buf m s.terminal in
    let (m2, written, a2) = check_format_lem sb tiny m1 s.terminal in
    (
      m2,
      rw (numbers, check_classes_lem s.terminal, written) refl,
      λ q apart apart' apart''. a2 q apart' apart'' ∙ a1 q apart,
    )
