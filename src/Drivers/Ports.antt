-- ===== src/Drivers/Ports.antt =====
-- Port access, munux-os/kernel/interrupts/io.h. What stands behind the ports is hardware: a type of
-- states, and what an access does to a state. `outl` and `inl` are not used by the kernel.
use munux.Common.{ℕ}

pub record Bus (D : Type 0) : Type 0 where
  pub inb : (port : ℕ) → D → ℕ × D
  pub inw : (port : ℕ) → D → ℕ × D
  pub outb : (port value : ℕ) → D → D
  pub outw : (port value : ℕ) → D → D

module _ {D : Type 0} (bus : Bus D) where
  -- `io_wait`
  pub io_wait : D → D
  io_wait = bus.outb 0x80 0
