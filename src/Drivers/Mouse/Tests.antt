-- ===== src/Drivers/Mouse/Tests.antt =====
-- The theorem on packets at a concrete mouse, and a small movement to the left.
use munux.Common.{
  ◌>>=◌, ℕ, ◌<◌, ◌≡◌, refl, true, not, some, ◌==◌, bit_and, ltb, if◌then◌else◌, arith,
}
use munux.Common.Int.{pos, negsuc, ◌+ℤ◌, ◌-ℤ◌}
use munux.Drivers.Mouse.{Mouse, movement, mouse_handler}
use munux.Drivers.Mouse.Packet.{protocol_movement, mouse_packet_lem}

abbrev mouse : Mouse
mouse = record {
  x = pos 10;
  y = negsuc 4;
  buttons = 0;
  cycle = 0;
  bytes = λ q. 0;
  has_callback = true;
}

-- One step to the left is read as 257.
step_left : (movement 0x18 0x10 0xff ≡ negsuc 256) × (protocol_movement true 0xff ≡ negsuc 0)
unfolding movement ◌-ℤ◌
step_left = (refl, refl)

mouse_packet_lem_example :
    (t : Mouse) × ((mouse_handler 0x29 mouse >>= λ r.
    mouse_handler 3 r.0 >>= λ r. mouse_handler 4 r.0)
      ≡ some (t, some (movement 0x29 0x10 3, pos 0 -ℤ movement 0x29 0x20 4, 1)))
    × (t.x ≡ pos 10 +ℤ movement 0x29 0x10 3)
    × (t.y ≡ negsuc 4 +ℤ (pos 0 -ℤ movement 0x29 0x20 4))
    × (t.buttons ≡ 1)
    × (t.cycle ≡ 0)
    × ((bit byte : ℕ)
        → byte < 256
        → movement 0x29 bit byte ≡ (
            if ltb byte 128
            then (if byte == 0 then pos 0 else protocol_movement (not (bit_and 0x29 bit == 0)) byte)
            else protocol_movement (not (bit_and 0x29 bit == 0)) byte -ℤ pos 256))
mouse_packet_lem_example =
    mouse_packet_lem mouse 0x29 3 4 (omega arith) (omega arith) (omega arith) (omega arith)
