-- ===== src/Drivers/Mouse.antt =====
-- munux-os/kernel/drivers/mouse.c: packets of three bytes from IRQ 12. `none` is a position that
-- overflows its `int32_t`. The driver's dialogue with the controller is in Setup.
pub mod Packet
pub mod Setup
mod Tests
use munux.Common.{
  ℕ, suc, ◌+◌, ◌-◌, ◌^◌, Bool, false, ◌&&◌, not, Option, none, some, bit_and, ◌==◌, ltb,
  if◌then◌else◌,
}
use munux.Common.Memory.{Memory, update}
use munux.Common.Int.{ℤ, pos, negsuc, ◌+ℤ◌, ◌-ℤ◌, is_zero}

-- The static variables: the position, the bytes of the packet so far, and whether a callback is
-- registered.
pub record Mouse : Type 0 where
  pub x : ℤ
  pub y : ℤ
  pub buttons : ℕ
  pub cycle : ℕ
  pub bytes : Memory
  pub has_callback : Bool

-- An `int8_t` as an `int32_t`.
abbrev pub sign8 : ℕ → ℤ
sign8 byte = if ltb byte 128 then pos byte else negsuc (255 - byte)

-- `if (d && (status & bit)) d -= 256;`
pub movement : (status bit byte : ℕ) → ℤ
movement status bit byte =
    if not (is_zero (sign8 byte)) && not (bit_and status bit == 0)
    then sign8 byte -ℤ pos 256
    else sign8 byte

-- A result that an `int32_t` can hold.
abbrev pub in_int32 : ℤ → Option ℤ
in_int32 (pos n) = if ltb n (2 ^ 31) then some (pos n) else none
in_int32 (negsuc n) = if ltb n (2 ^ 31) then some (negsuc n) else none

abbrev pub placed :
    (dx dy : ℤ) → (status : ℕ) → Mouse → Option ℤ → Option ℤ → Option (Mouse × Option (ℤ × ℤ × ℕ))
placed dx dy status s (some x) (some y) = some (
  record s { x = x; y = y; buttons = bit_and status 0x07 },
  if s.has_callback then some (dx, dy, bit_and status 0x07) else none,
)
placed dx dy status s _ _ = none

-- The third byte ends a packet: the position, and the arguments of the callback if there is one.
pub parse_packet : Mouse → Option (Mouse × Option (ℤ × ℤ × ℕ))
parse_packet s =
    let status = s.bytes 0 in
    let dx = movement status 0x10 (s.bytes 1) in
    let dy = pos 0 -ℤ movement status 0x20 (s.bytes 2) in
    placed dx dy status s (in_int32 (s.x +ℤ dx)) (in_int32 (s.y +ℤ dy))

-- `mouse_handler`, for the byte that `inb(0x60)` returns.
pub mouse_handler : ℕ → Mouse → Option (Mouse × Option (ℤ × ℤ × ℕ))
mouse_handler byte s =
    let s' = record s { bytes = update s.bytes s.cycle byte; cycle = s.cycle + 1 } in
    if s.cycle + 1 == 3 then parse_packet (record s' { cycle = 0 }) else some (s', none)

-- `mouse_set_callback`, for a pointer that is not null or null.
pub set_callback : Bool → Mouse → Mouse
set_callback registered s = record s { has_callback = registered }

-- `mouse_get_state`
pub get_state : Mouse → ℤ × ℤ × ℕ
get_state s = (s.x, s.y, s.buttons)
