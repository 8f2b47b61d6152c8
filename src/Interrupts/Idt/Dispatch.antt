-- ===== src/Interrupts/Idt/Dispatch.antt =====
-- Which ends of interrupt and which handler a hardware interrupt leads to.
use munux.Common.{
  ℕ, ◌+◌, ◌≡◌, Bool, false, not, ◌&&◌, ◌||◌, List, [], ◌∷◌, bit_and, ◌==◌, leb, if◌then◌else◌,
  arith,
}
use munux.Interrupts.Idt.{Idt, Event, outb, call, serve, irq_handler}

abbrev is_eoi : ℕ → Event → Bool
is_eoi port (outb p v) = p == port && v == 0x20
is_eoi port _ = false

-- How often the controller at the port is told the end of the interrupt.
abbrev pub eois : ℕ → List Event → ℕ
eois port [] = 0
eois port (e ∷ es) = (if is_eoi port e then 1 else 0) + eois port es

-- The handlers that are called, in their order.
abbrev pub calls : List Event → List ℕ
calls [] = []
calls (call h ∷ es) = h ∷ calls es
calls (_ ∷ es) = calls es

-- The vectors 39 and 47 where the controller has no interrupt in service.
abbrev pub spurious : (irq in_service : ℕ) → Bool
spurious irq in_service = (irq == 39 || irq == 47) && bit_and in_service 0x80 == 0

-- For every vector, the master controller gets exactly one end of interrupt, but none for a
-- spurious vector 39; the slave gets exactly one for a vector from 40 on that is not spurious, and
-- none else; and the registered handler is called exactly once, but not for a spurious vector.
pub irq_handler_lem :
    (t : Idt) (irq in_service : ℕ)
    → (eois 0x20 (irq_handler t irq in_service)
        ≡ (if irq == 39 && spurious irq in_service then 0 else 1))
      × (eois 0xa0 (irq_handler t irq in_service)
          ≡ (if leb 40 irq && not (spurious irq in_service) then 1 else 0))
      × (calls (irq_handler t irq in_service)
          ≡ (if spurious irq in_service || t.handlers irq == 0 then [] else t.handlers irq ∷ []))
unfolding irq_handler serve
irq_handler_lem t irq in_service = (ground arith, ground arith, ground arith)
