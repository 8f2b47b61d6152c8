-- ===== src/Interrupts/Idt/Tests.antt =====
-- The theorems on interrupts at concrete tables.
use munux.Common.{◌≡◌, [], ◌∷◌, ◌==◌, if◌then◌else◌}
use munux.Interrupts.Idt.{Idt, irq_handler}
use munux.Interrupts.Idt.Dispatch.{eois, calls, irq_handler_lem}

abbrev table : Idt
table = record {
  entries = λ v. record { base_low = 0; selector = 0; always0 = 0; flags = 0; base_high = 0 };
  handlers = λ v. if v == 47 then 0x1234 else 0;
}

-- The last vector of the slave, with an interrupt in service.
irq_handler_lem_example :
    (eois 0x20 (irq_handler table 47 0x80) ≡ 1)
    × (eois 0xa0 (irq_handler table 47 0x80) ≡ 1)
    × (calls (irq_handler table 47 0x80) ≡ 0x1234 ∷ [])
irq_handler_lem_example = irq_handler_lem table 47 0x80
