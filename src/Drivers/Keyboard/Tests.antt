-- ===== src/Drivers/Keyboard/Tests.antt =====
-- Runs of the keyboard driver, and its theorems at concrete states.
use munux.Common.{◌≡◌, refl, true, false, some, [], ◌∷◌, arith}
use munux.Drivers.Keyboard.{Keyboard, buffer_put, to_ascii, type_key, handle_key, handler, getchar}
use munux.Drivers.Keyboard.Ring.{IsValid, contents, stored, enqueue, buffer_put_lem}
use munux.Drivers.Keyboard.Decode.{TypesAtMost, handler-TypesAtMost}

abbrev idle : Keyboard
idle = record {
  buffer = λ _. 0;
  read_pos = 255;
  write_pos = 255;
  shift = true;
  ctrl = false;
  alt = false;
  caps = false;
  num = false;
  scroll = false;
  extended = false;
}

idle-IsValid : IsValid idle
idle-IsValid = omega arith

-- With Shift held, the keys `h` and `i` across the end of the buffer.
typed : contents (handler 0x17 (handler 0xa3 (handler 0x23 idle))) ≡ b'H' ∷ b'I' ∷ []
unfolding handler handle_key type_key to_ascii buffer_put contents stored
typed = refl

-- The call waits through a release and a prefixed key, then returns the key `a`.
waits :
    (k : Keyboard) × (getchar (0xaa ∷ 0xe0 ∷ 0x48 ∷ 0x1e ∷ 0x9e ∷ []) idle
      ≡ some (b'a', 0x9e ∷ [], k))
unfolding getchar handler handle_key type_key to_ascii buffer_put
waits = (_, refl)

-- One character that waits.
abbrev one : Keyboard
one = record idle { buffer = λ _. 65; write_pos = 0 }

buffer_put_lem_example :
    IsValid (buffer_put 65 idle) × (contents (buffer_put 65 idle) ≡ enqueue 65 (contents idle))
buffer_put_lem_example = buffer_put_lem 65 idle-IsValid

handler-TypesAtMost_example :
    IsValid (handler 0x1e idle) × TypesAtMost 0x1e idle (handler 0x1e idle)
handler-TypesAtMost_example = handler-TypesAtMost 0x1e idle-IsValid
