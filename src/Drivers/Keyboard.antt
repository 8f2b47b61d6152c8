-- ===== src/Drivers/Keyboard.antt =====
-- munux-os/kernel/drivers/keyboard.c: scan codes from IRQ 1 to a ring of characters.
-- A `char` is its byte, 0 to 255. A scan code is what `inb(0x60)` returns to the handler.
pub mod Layout
pub mod Ring
pub mod Decode
mod Tests
use munux.Common.{
  ℕ, ◌+◌, ◌-◌, ◌%◌, Bool, true, false, not, ◌&&◌, ◌||◌, Option, none, some, List, [], ◌∷◌, bit_and,
  ◌==◌, ltb, leb, if◌then◌else◌, get_or, length,
}
use munux.Common.Word.{add32}
use munux.Common.Memory.{Memory, update}
use munux.Drivers.Keyboard.Layout.{scancode_to_ascii, scancode_to_ascii_shift}

abbrev pub buffer_size : ℕ
buffer_size = 256

-- The static variables: the ring, the modifier keys, and the flag of a pending 0xE0 prefix.
pub record Keyboard : Type 0 where
  pub buffer : Memory
  pub read_pos : ℕ
  pub write_pos : ℕ
  pub shift : Bool
  pub ctrl : Bool
  pub alt : Bool
  pub caps : Bool
  pub num : Bool
  pub scroll : Bool
  pub extended : Bool

-- `keyboard_buffer_put`
pub buffer_put : ℕ → Keyboard → Keyboard
buffer_put c k =
    let next_pos = add32 k.write_pos 1 % buffer_size in
    if next_pos == k.read_pos
    then k
    else record k { buffer = update k.buffer k.write_pos c; write_pos = next_pos }

-- The character of a pressed key, Caps Lock applied to the letters; 0 for none.
pub to_ascii : ℕ → Bool → Bool → ℕ
to_ascii scancode shift caps =
    let ascii = get_or (if shift then scancode_to_ascii_shift else scancode_to_ascii) scancode 0 in
    if caps && (leb b'a' ascii && leb ascii b'z')
    then ascii - 32
    else if caps && (leb b'A' ascii && (leb ascii b'Z' && shift))
    then ascii + 32
    else ascii

-- The end of the handler, for a pressed key that is no modifier.
pub type_key : ℕ → Keyboard → Keyboard
type_key scancode k =
    if ltb scancode (length scancode_to_ascii)
    then (let ascii = to_ascii scancode k.shift k.caps in
        if ascii == 0 then k else buffer_put ascii k)
    else k

-- The handler after the prefix is dealt with; `pressed` is bit 7 of the byte, and `scancode` its
-- low seven bits.
pub handle_key : Bool → ℕ → Keyboard → Keyboard
handle_key pressed scancode k =
    if scancode == 0x2a || scancode == 0x36
    then record k { shift = pressed }
    else if scancode == 0x1d
    then record k { ctrl = pressed }
    else if scancode == 0x38
    then record k { alt = pressed }
    else if scancode == 0x3a && pressed
    then record k { caps = not k.caps }
    else if pressed
    then type_key scancode k
    else k

-- `keyboard_handler`
pub handler : ℕ → Keyboard → Keyboard
handler scancode k =
    if scancode == 0xe0
    then record k { extended = true }
    else if k.extended
    then record k { extended = false }
    else handle_key (bit_and scancode 0x80 == 0) (bit_and scancode 0x7f) k

-- `keyboard_init`, less the registration of the handler for vector 33. The prefix flag is a static
-- variable of the handler and is not reset.
unfoldable pub init : Keyboard → Keyboard
init k = record k {
  read_pos = 0;
  write_pos = 0;
  shift = false;
  ctrl = false;
  alt = false;
  caps = false;
  num = false;
  scroll = false;
}

-- `keyboard_getchar`: while the ring is empty the CPU halts until the next interrupt. The list
-- holds the scan codes that arrive; `none` means that the call still waits after the last one.
pub getchar : List ℕ → Keyboard → Option (ℕ × List ℕ × Keyboard)
getchar [] k =
    if k.read_pos == k.write_pos
    then none
    else some (k.buffer k.read_pos, [], record k { read_pos = add32 k.read_pos 1 % buffer_size })
getchar (scancode ∷ later) k =
    let wait = getchar later (handler scancode k) in
    if k.read_pos == k.write_pos
    then wait
    else some (
      k.buffer k.read_pos,
      scancode ∷ later,
      record k { read_pos = add32 k.read_pos 1 % buffer_size },
    )

pub available : Keyboard → Bool
available k = not (k.read_pos == k.write_pos)

pub flush : Keyboard → Keyboard
flush k = record k { read_pos = 0; write_pos = 0 }
