-- ===== src/Drivers/Mouse/Setup.antt =====
-- The driver's dialogue with the keyboard controller: the waits, and `mouse_init`.
use munux.Common.{ℕ, zero, suc, bit_and, bit_or, ◌==◌, if◌then◌else◌}
use munux.Common.Int.{pos}
use munux.Drivers.Ports.{Bus}
use munux.Drivers.Mouse.{Mouse}
use munux.Interrupts.Idt.{Idt, register_interrupt_handler}

abbrev pub wait_limit : ℕ
wait_limit = 100000

module _ {D : Type 0} (bus : Bus D) where
  -- The loop of `mouse_wait_write`, with `n` rounds left.
  pub poll_write : (n : ℕ) → D → D
  poll_write zero d = d
  poll_write (suc n) d =
      let (status, d') = bus.inb 0x64 d in
      let later = poll_write n d' in if bit_and status 2 == 0 then d' else later

  pub mouse_wait_write : D → D
  mouse_wait_write = poll_write wait_limit

  -- The loop of `mouse_wait_read`, with `n` rounds left.
  pub poll_read : (n : ℕ) → D → D
  poll_read zero d = d
  poll_read (suc n) d =
      let (status, d') = bus.inb 0x64 d in
      let later = poll_read n d' in if bit_and status 1 == 0 then later else d'

  pub mouse_wait_read : D → D
  mouse_wait_read = poll_read wait_limit

  -- A byte to a port of the controller, after the wait.
  pub send : (port value : ℕ) → D → D
  send port value d = bus.outb port value (mouse_wait_write d)

  pub mouse_write : ℕ → D → D
  mouse_write byte d = send 0x60 byte (send 0x64 0xd4 d)

  pub mouse_read : D → ℕ × D
  mouse_read d = bus.inb 0x60 (mouse_wait_read d)

  -- What `mouse_init` does to the ports.
  pub mouse_setup : D → D
  mouse_setup d =
      let (status, d') = bus.inb 0x60 (mouse_wait_read (send 0x64 0x20 (send 0x64 0xa8 d))) in
      let enabled = send 0x60 (bit_or status 2) (send 0x64 0x60 d') in
      let (_, defaults) = mouse_read (mouse_write 0xf6 enabled) in
      (mouse_read (mouse_write 0xf4 defaults)).1

  -- `mouse_init`, with the address of `mouse_handler`.
  pub mouse_init : (handler : ℕ) → Idt → Mouse → D → Idt × Mouse × D
  mouse_init handler table s d = (
    register_interrupt_handler 44 handler table,
    record s { x = pos 0; y = pos 0; buttons = 0 },
    mouse_setup d,
  )
