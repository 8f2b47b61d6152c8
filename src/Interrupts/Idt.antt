-- ===== src/Interrupts/Idt.antt =====
-- munux-os/kernel/interrupts/idt.c. The stubs of interrupt.asm are parameters: the addresses of
-- `isr0` to `isr31`, of `irq0` to `irq15`, and of `isr128`. What the code does to the ports and
-- which handler it calls is a list of events, in their order; the instruction that loads the table
-- and the waits between the bytes to the controllers leave no event.
pub mod Gates
pub mod Dispatch
pub mod Exceptions
mod Tests
use munux.Common.{
  ℕ, zero, suc, ◌+◌, ◌/◌, ◌^◌, List, [], ◌∷◌, ◌++◌, bit_and, ◌==◌, leb, if◌then◌else◌,
}
use munux.Common.Memory.{Memory, update}

-- A `struct idt_entry`.
pub record IdtEntry : Type 0 where
  pub base_low : ℕ
  pub selector : ℕ
  pub always0 : ℕ
  pub flags : ℕ
  pub base_high : ℕ

-- The table, and the addresses of the registered handlers, 0 where there is none.
pub record Idt : Type 0 where
  pub entries : ℕ → IdtEntry
  pub handlers : Memory

abbrev pub gate : ℕ → ℕ → ℕ → IdtEntry
gate base sel flags = record {
  base_low = bit_and base 0xffff;
  selector = sel;
  always0 = 0;
  flags = flags;
  base_high = bit_and (base / 2 ^ 16) 0xffff;
}

-- `idt_set_gate`
pub idt_set_gate : (num base sel flags : ℕ) → Idt → Idt
idt_set_gate num base sel flags t = record t {
  entries = λ v. if v == num then gate base sel flags else t.entries v;
}

-- `register_interrupt_handler`
unfoldable pub register_interrupt_handler : (n handler : ℕ) → Idt → Idt
register_interrupt_handler n handler t = record t { handlers = update t.handlers n handler }

-- `n` calls of `idt_set_gate` in a row, for the stubs from number `i` on.
pub set_gates : (n i offset : ℕ) → (ℕ → ℕ) → Idt → Idt
set_gates zero i offset stub t = t
set_gates (suc n) i offset stub t =
    set_gates n (i + 1) offset stub (idt_set_gate (offset + i) (stub i) 0x08 0x8e t)

-- The table as `idt_init` leaves it.
pub idt_init : (isr irq : ℕ → ℕ) → ℕ → Idt → Idt
idt_init isr irq isr128 t =
    idt_set_gate 0x80 isr128 0x08 0xee (set_gates 16 0 32 irq (set_gates 32 0 0 isr t))

pub data Event : Type 0 where
  outb : (port value : ℕ) → Event
  inb : (port value : ℕ) → Event
  call : (handler : ℕ) → Event

abbrev pub pic1_cmd : ℕ
pic1_cmd = 0x20

abbrev pub pic1_data : ℕ
pic1_data = 0x21

abbrev pub pic2_cmd : ℕ
pic2_cmd = 0xa0

abbrev pub pic2_data : ℕ
pic2_data = 0xa1

-- `pic_remap`
pub pic_remap : List Event
pic_remap =
    outb pic1_cmd 0x11
    ∷ outb pic2_cmd 0x11
    ∷ outb pic1_data 0x20
    ∷ outb pic2_data 0x28
    ∷ outb pic1_data 0x04
    ∷ outb pic2_data 0x02
    ∷ outb pic1_data 0x01
    ∷ outb pic2_data 0x01
    ∷ outb pic1_data 0xf8
    ∷ outb pic2_data 0xff
    ∷ []

-- The end of `irq_handler`: the handler, if one is registered, and the ends of interrupt.
pub serve : Idt → ℕ → List Event
serve t irq =
    (if t.handlers irq == 0 then [] else call (t.handlers irq) ∷ [])
    ++ ((if leb 40 irq then outb pic2_cmd 0x20 ∷ [] else []) ++ outb pic1_cmd 0x20 ∷ [])

-- `irq_handler`, where `in_service` is what the controller answers when it is asked for its
-- In-Service Register.
pub irq_handler : Idt → (irq in_service : ℕ) → List Event
irq_handler t irq in_service =
    if irq == 39
    then outb pic1_cmd 0x0b
      ∷ inb pic1_cmd in_service
      ∷ (if bit_and in_service 0x80 == 0 then [] else serve t irq)
    else if irq == 47
    then outb pic2_cmd 0x0b
      ∷ inb pic2_cmd in_service
      ∷ (if bit_and in_service 0x80 == 0 then outb pic1_cmd 0x20 ∷ [] else serve t irq)
    else serve t irq
