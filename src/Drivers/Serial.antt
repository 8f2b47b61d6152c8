-- ===== src/Drivers/Serial.antt =====
-- munux-os/kernel/drivers/serial.c. The waits poll the line status without a bound: `fuel` is how
-- often, and `none` means that the wait goes on.
pub mod Uart
mod Tests
use munux.Common.{
  ◌>>=◌, ℕ, zero, suc, ◌+◌, ◌%◌, ◌^◌, Bool, not, Option, none, some, List, [], ◌∷◌, bit_and, ◌==◌,
  if◌then◌else◌,
}
use munux.Drivers.Ports.{Bus}

abbrev pub com1 : ℕ
com1 = 0x3f8

-- `port + k`, as `uint16_t`.
abbrev pub register : (port k : ℕ) → ℕ
register port k = (port + k) % 2 ^ 16

module _ {D : Type 0} (bus : Bus D) where
  -- `serial_is_transmit_empty`
  pub is_transmit_empty : (port : ℕ) → D → ℕ × D
  is_transmit_empty port d =
      let (status, d') = bus.inb (register port 5) d in (bit_and status 0x20, d')

  -- The line parameters that `serial_init` sends, and the byte of the loopback test.
  pub configure : (port : ℕ) → D → D
  configure port d =
      let d1 =
        bus.outb (register port 0) 0x03
          (bus.outb (register port 3) 0x80 (bus.outb (register port 1) 0x00 d)) in
      let d2 =
        bus.outb (register port 2) 0xc7
          (bus.outb (register port 3) 0x03 (bus.outb (register port 1) 0x00 d1)) in
      bus.outb (register port 0) 0xae
        (bus.outb (register port 4) 0x1e (bus.outb (register port 4) 0x0b d2))

  -- `serial_init`: 1 where the test byte does not come back.
  pub serial_init : (port : ℕ) → D → ℕ × D
  serial_init port d =
      let (byte, d') = bus.inb (register port 0) (configure port d) in
      if byte == 0xae then (0, bus.outb (register port 4) 0x0f d') else (1, d')

  -- `serial_putchar`
  pub serial_putchar : (fuel port c : ℕ) → D → Option D
  serial_putchar zero port c d = none
  serial_putchar (suc n) port c d =
      let (empty, d') = is_transmit_empty port d in
      let later = serial_putchar n port c d' in
      if empty == 0 then later else some (bus.outb port c d')

  -- `serial_writestring`, of the bytes before the NUL; the fuel is that of each character.
  pub serial_writestring : (fuel port : ℕ) → List ℕ → D → Option D
  serial_writestring fuel port [] d = some d
  serial_writestring fuel port (c ∷ text) d =
      serial_putchar fuel port c d >>= λ d'. serial_writestring fuel port text d'

  -- `serial_received`
  pub serial_received : (port : ℕ) → D → ℕ × D
  serial_received port d = let (status, d') = bus.inb (register port 5) d in (bit_and status 1, d')

  -- `serial_getchar`
  pub serial_getchar : (fuel port : ℕ) → D → Option (ℕ × D)
  serial_getchar zero port d = none
  serial_getchar (suc n) port d =
      let (received, d') = serial_received port d in
      let later = serial_getchar n port d' in
      if received == 0 then later else some (bus.inb port d')
