-- ===== src/Libk/Conv.antt =====
-- munux-os/kernel/lib/conv.c: numbers to text and back.
-- An `int` is its 32-bit pattern. `none` is undefined behaviour: a write past `tmp`, or a signed
-- overflow in `atoi`.
pub mod Digits
pub mod Text
pub mod Roundtrip
mod Tests
use mathlib.Core.Option
use munux.Common.{
  ℕ, zero, suc, ◌+◌, ◌-◌, ◌*◌, ◌/◌, ◌%◌, ◌^◌, Bool, true, false, ◌&&◌, ◌||◌, Option, none, some,
  List, [], ◌∷◌, ◌++◌, ◌==◌, ltb, leb, if◌then◌else◌, get_or,
}
use munux.Common.Word.{add32, not32}
use munux.Common.Memory.{Memory, update}
use munux.Libk.Ctype.{is_digit, is_space}

-- The string literal "0123456789abcdef".
abbrev pub digit_chars : List ℕ
digit_chars =
    b'0' ∷ b'1' ∷ b'2' ∷ b'3' ∷ b'4' ∷ b'5' ∷ b'6' ∷ b'7' ∷ b'8' ∷ b'9' ∷ b'a' ∷ b'b' ∷ b'c' ∷ b'd'
    ∷ b'e' ∷ b'f' ∷ []

-- `while (value > 0)` of `utoa`. `room` counts the bytes of `tmp` that are left, and `tmp` holds
-- what is written so far, the last byte first.
unfoldable pub digit_loop : (room value base : ℕ) → List ℕ → Option (List ℕ)
digit_loop zero value base tmp = if ltb 0 value then none else some tmp
digit_loop (suc room) value base tmp =
    let rest = digit_loop room (value / base) base (get_or digit_chars (value % base) 0 ∷ tmp) in
    if ltb 0 value then rest else some tmp

-- The bytes that `utoa` copies from `tmp`, for a base it accepts: the copy runs backwards.
unfoldable pub digits : (value base : ℕ) → Option (List ℕ)
digits value base = if value == 0 then some (b'0' ∷ []) else digit_loop 33 value base []

-- The copy into `buf`, from index `p` on, and the final NUL.
pub store_text : List ℕ → ℕ → Memory → Memory
store_text [] p m = update m p 0
store_text (c ∷ rest) p m = store_text rest (p + 1) (update m p c)

unfoldable pub utoa : (value buf base : ℕ) → Memory → Option Memory
utoa value buf base m =
    if ltb base 2 || ltb 16 base
    then some (update m buf 0)
    else Option.map (λ text. store_text text buf m) (digits value base)

-- `~value + 1`, the magnitude of a negative number.
abbrev pub negate : ℕ → ℕ
negate value = add32 (not32 value) 1

abbrev pub is_negative : ℕ → Bool
is_negative value = leb (2 ^ 31) value

pub itoa : (value buf base : ℕ) → Memory → Option Memory
itoa value buf base m =
    if base == 10 && is_negative value
    then utoa (negate value) (buf + 1) 10 (update m buf b'-')
    else utoa value buf base m

-- The second loop of `atoi`; `result` is not negative.
unfoldable pub value_loop : List ℕ → ℕ → Option ℕ
value_loop [] result = some result
value_loop (c ∷ rest) result =
    let next = value_loop rest (result * 10 + (c - b'0')) in
    if is_digit c
    then if ltb (result * 10 + (c - b'0')) (2 ^ 31) then next else none
    else some result

-- `sign * result`, as a 32-bit pattern.
unfoldable pub signed : Bool → ℕ → ℕ
signed negative result = if negative then (2 ^ 32 - result) % 2 ^ 32 else result

-- The optional sign, then the digits.
unfoldable pub after_spaces : List ℕ → Option ℕ
after_spaces [] = some 0
after_spaces (c ∷ rest) =
    if c == b'+' || c == b'-'
    then Option.map (signed (c == b'-')) (value_loop rest 0)
    else value_loop (c ∷ rest) 0

unfoldable pub atoi : List ℕ → Option ℕ
atoi [] = some 0
atoi (c ∷ rest) = if is_space c then atoi rest else after_spaces (c ∷ rest)
