-- ===== src/Drivers/Keyboard/Layout.antt =====
-- The two scan code tables of keyboard.c and the key codes of keyboard.h.
use munux.Common.{ℕ, List, [], ◌∷◌}

abbrev pub key_esc : ℕ
key_esc = 27

abbrev pub key_backspace : ℕ
key_backspace = 8

abbrev pub key_tab : ℕ
key_tab = 9

abbrev pub key_enter : ℕ
key_enter = 10

abbrev pub key_ctrl : ℕ
key_ctrl = 0x80

abbrev pub key_shift : ℕ
key_shift = 0x81

abbrev pub key_alt : ℕ
key_alt = 0x82

abbrev pub key_caps_lock : ℕ
key_caps_lock = 0x83

abbrev pub key_f1 : ℕ
key_f1 = 0x84

abbrev pub key_f2 : ℕ
key_f2 = 0x85

abbrev pub key_f3 : ℕ
key_f3 = 0x86

abbrev pub key_f4 : ℕ
key_f4 = 0x87

abbrev pub key_f5 : ℕ
key_f5 = 0x88

abbrev pub key_f6 : ℕ
key_f6 = 0x89

abbrev pub key_f7 : ℕ
key_f7 = 0x8a

abbrev pub key_f8 : ℕ
key_f8 = 0x8b

abbrev pub key_f9 : ℕ
key_f9 = 0x8c

abbrev pub key_f10 : ℕ
key_f10 = 0x8d

abbrev pub key_f11 : ℕ
key_f11 = 0x8e

abbrev pub key_f12 : ℕ
key_f12 = 0x8f

-- `scancode_to_ascii`
abbrev pub scancode_to_ascii : List ℕ
scancode_to_ascii =
    0 ∷ key_esc ∷ b'1' ∷ b'2' ∷ b'3' ∷ b'4' ∷ b'5' ∷ b'6' ∷ b'7' ∷ b'8' ∷ b'9' ∷ b'0' ∷ b'-' ∷ b'='
    ∷ key_backspace ∷ key_tab ∷ b'q' ∷ b'w' ∷ b'e' ∷ b'r' ∷ b't' ∷ b'y' ∷ b'u' ∷ b'i' ∷ b'o' ∷ b'p'
    ∷ b'[' ∷ b']' ∷ key_enter ∷ key_ctrl ∷ b'a' ∷ b's' ∷ b'd' ∷ b'f' ∷ b'g' ∷ b'h' ∷ b'j' ∷ b'k'
    ∷ b'l' ∷ b';' ∷ 39 ∷ b'`' ∷ key_shift ∷ 92 ∷ b'z' ∷ b'x' ∷ b'c' ∷ b'v' ∷ b'b' ∷ b'n' ∷ b'm'
    ∷ b',' ∷ b'.' ∷ b'/' ∷ key_shift ∷ b'*' ∷ key_alt ∷ b' ' ∷ key_caps_lock ∷ key_f1 ∷ key_f2
    ∷ key_f3 ∷ key_f4 ∷ key_f5 ∷ key_f6 ∷ key_f7 ∷ key_f8 ∷ key_f9 ∷ key_f10 ∷ 0 ∷ 0 ∷ b'7' ∷ b'8'
    ∷ b'9' ∷ b'-' ∷ b'4' ∷ b'5' ∷ b'6' ∷ b'+' ∷ b'1' ∷ b'2' ∷ b'3' ∷ b'0' ∷ b'.' ∷ 0 ∷ 0 ∷ 0
    ∷ key_f11 ∷ key_f12 ∷ []

-- `scancode_to_ascii_shift`
abbrev pub scancode_to_ascii_shift : List ℕ
scancode_to_ascii_shift =
    0 ∷ key_esc ∷ b'!' ∷ b'@' ∷ b'#' ∷ b'$' ∷ b'%' ∷ b'^' ∷ b'&' ∷ b'*' ∷ b'(' ∷ b')' ∷ b'_' ∷ b'+'
    ∷ key_backspace ∷ key_tab ∷ b'Q' ∷ b'W' ∷ b'E' ∷ b'R' ∷ b'T' ∷ b'Y' ∷ b'U' ∷ b'I' ∷ b'O' ∷ b'P'
    ∷ b'{' ∷ b'}' ∷ key_enter ∷ key_ctrl ∷ b'A' ∷ b'S' ∷ b'D' ∷ b'F' ∷ b'G' ∷ b'H' ∷ b'J' ∷ b'K'
    ∷ b'L' ∷ b':' ∷ 34 ∷ b'~' ∷ key_shift ∷ b'|' ∷ b'Z' ∷ b'X' ∷ b'C' ∷ b'V' ∷ b'B' ∷ b'N' ∷ b'M'
    ∷ b'<' ∷ b'>' ∷ b'?' ∷ key_shift ∷ b'*' ∷ key_alt ∷ b' ' ∷ key_caps_lock ∷ key_f1 ∷ key_f2
    ∷ key_f3 ∷ key_f4 ∷ key_f5 ∷ key_f6 ∷ key_f7 ∷ key_f8 ∷ key_f9 ∷ key_f10 ∷ 0 ∷ 0 ∷ b'7' ∷ b'8'
    ∷ b'9' ∷ b'-' ∷ b'4' ∷ b'5' ∷ b'6' ∷ b'+' ∷ b'1' ∷ b'2' ∷ b'3' ∷ b'0' ∷ b'.' ∷ 0 ∷ 0 ∷ 0
    ∷ key_f11 ∷ key_f12 ∷ []
