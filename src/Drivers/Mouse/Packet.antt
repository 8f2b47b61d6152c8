-- ===== src/Drivers/Mouse/Packet.antt =====
-- A packet against the PS/2 protocol.
use munux.Common.{
  ◌>>=◌, ℕ, ◌+◌, ◌^◌, ◌≤◌, ◌<◌, ◌≡◌, refl, Bool, not, none, some, bit_and, ◌==◌, ltb, if◌then◌else◌,
  arith,
}
use munux.Common.Memory.{update}
use munux.Common.Int.{ℤ, pos, negsuc, pos_part, neg_part, ◌+ℤ◌, ◌-ℤ◌}
use munux.Drivers.Mouse.{Mouse, movement, in_int32, parse_packet, mouse_handler}

-- The movement of the protocol: nine bits in two's complement, the sign in the status byte.
abbrev pub protocol_movement : (negative : Bool) → ℕ → ℤ
protocol_movement negative byte = if negative then pos byte -ℤ pos 256 else pos byte

-- A byte from 1 to 127 is read by the protocol, 0 with no sign too; a byte from 128 on is read as 256 less.
movement_lem :
    (status bit byte : ℕ)
    → byte < 256
    → movement status bit byte ≡ (
        if ltb byte 128
        then (if byte == 0 then pos 0 else protocol_movement (not (bit_and status bit == 0)) byte)
        else protocol_movement (not (bit_and status bit == 0)) byte -ℤ pos 256)
unfolding movement ◌-ℤ◌
movement_lem status bit byte h = ground arith

-- Less than 2^30 from 0.
abbrev pub IsNear : ℤ → Type 0
IsNear a = (pos_part a < 2 ^ 30) × (neg_part a < 2 ^ 30)

movement_bounds :
    (status bit byte : ℕ)
    → byte < 256
    → (pos_part (movement status bit byte) ≤ 255)
      × (neg_part (movement status bit byte) ≤ 384)
      × (pos_part (movement status bit byte) + neg_part (movement status bit byte) ≤ 512)
unfolding movement ◌-ℤ◌
movement_bounds status bit byte h = ground arith

in_int32_lem : (a : ℤ) → pos_part a < 2 ^ 31 → neg_part a < 2 ^ 31 → in_int32 a ≡ some a
in_int32_lem (pos n) p q = ground arith
in_int32_lem (negsuc n) p q = ground arith

sum_lt :
    (a b : ℤ)
    → IsNear a
    → pos_part b ≤ 512
    → neg_part b ≤ 512
    → (pos_part (a +ℤ b) < 2 ^ 31) × (neg_part (a +ℤ b) < 2 ^ 31)
unfolding ◌+ℤ◌
sum_lt a b near p q = ground arith

opposite_parts :
    (b : ℤ)
    → (pos_part (pos 0 -ℤ b) ≤ pos_part b + neg_part b)
      × (neg_part (pos 0 -ℤ b) ≤ pos_part b + neg_part b)
unfolding ◌-ℤ◌
opposite_parts b = ground arith

near_sum :
    (a b : ℤ) → IsNear a → pos_part b ≤ 512 → neg_part b ≤ 512 → in_int32 (a +ℤ b) ≡ some (a +ℤ b)
near_sum a b near p q =
    let (lt_pos, lt_neg) = sum_lt a b near p q in in_int32_lem (a +ℤ b) lt_pos lt_neg

-- Where no packet is under way and the position is less than 2^30 from 0 on both axes, three bytes
-- end a packet: the buttons are the low three bits of the first byte, the position moves by what the
-- driver reads (up for a negative second movement), the callback gets the same movements if there
-- is one; and what it reads for a byte is the protocol's nine-bit movement for a byte from 1 to 127, 0 for
-- a byte 0 whatever its sign, and 256 less than the protocol's movement for a byte from 128 on.
pub mouse_packet_lem :
    (s : Mouse) (status byte1 byte2 : ℕ)
    → byte1 < 256
    → byte2 < 256
    → IsNear s.x
    → IsNear s.y
    → let dx = movement status 0x10 byte1 in
      let dy = pos 0 -ℤ movement status 0x20 byte2 in
      (t : Mouse) × ((mouse_handler status (record s { cycle = 0 }) >>= λ r.
      mouse_handler byte1 r.0 >>= λ r. mouse_handler byte2 r.0)
        ≡ some (t, if s.has_callback then some (dx, dy, bit_and status 7) else none))
      × (t.x ≡ s.x +ℤ dx)
      × (t.y ≡ s.y +ℤ dy)
      × (t.buttons ≡ bit_and status 7)
      × (t.cycle ≡ 0)
      × ((bit byte : ℕ)
          → byte < 256
          → movement status bit byte ≡ (
              if ltb byte 128
              then (if byte == 0
                  then pos 0
                  else protocol_movement (not (bit_and status bit == 0)) byte)
              else protocol_movement (not (bit_and status bit == 0)) byte -ℤ pos 256))
unfolding mouse_handler parse_packet
mouse_packet_lem s status byte1 byte2 h1 h2 near_x near_y =
    let dx = movement status 0x10 byte1 in
    let up = movement status 0x20 byte2 in
    let bounds_x = movement_bounds status 0x10 byte1 h1 in
    let bounds_y = movement_bounds status 0x20 byte2 h2 in
    let parts_y = opposite_parts up in
    (
      record s {
        x = s.x +ℤ dx;
        y = s.y +ℤ (pos 0 -ℤ up);
        buttons = bit_and status 7;
        cycle = 0;
        bytes = update (update (update s.bytes 0 status) 1 byte1) 2 byte2;
      },
      rw
          (
            near_sum s.x dx near_x (omega arith) (omega arith),
            near_sum s.y (pos 0 -ℤ up) near_y (omega arith) (omega arith),
          )
          refl,
      refl,
      refl,
      refl,
      refl,
      movement_lem status,
    )
