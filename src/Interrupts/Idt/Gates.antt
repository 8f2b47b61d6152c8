-- ===== src/Interrupts/Idt/Gates.antt =====
-- The table that `idt_init` leaves.
use munux.Common.{ℕ, ◌+◌, ◌-◌, ◌*◌, ◌^◌, ◌==◌, ltb, if◌then◌else◌}
use munux.Interrupts.Idt.{Idt, IdtEntry}

-- The address that the processor reads from an entry.
abbrev pub target : IdtEntry → ℕ
target e = e.base_low + e.base_high * 2 ^ 16

-- The stub of a vector: the first 32 are exceptions, the next 16 interrupts of devices, and 128 is
-- the system call; the others have none.
abbrev pub stub_of : (isr irq : ℕ → ℕ) → ℕ → ℕ → ℕ
stub_of isr irq isr128 v =
    if v == 128 then isr128 else if ltb v 32 then isr v else if ltb v 48 then irq (v - 32) else 0
