-- ===== src/Drivers/Serial/Uart.antt =====
-- What the driver relies on in a UART, and what it sends to it.
use mathlib.Core.List.{append-nil, append_assoc}
use munux.Common.{
  ℕ, zero, suc, ◌-◌, ◌<◌, ◌≡◌, refl, sym, ap, ◌∙◌, inl, inr, true, false, not, some, List, [], ◌∷◌,
  ◌++◌, bit_and, ◌==◌, arith, Bool-cases,
}
use munux.Drivers.Ports.{Bus}
use munux.Drivers.Serial.{register, is_transmit_empty, serial_putchar, serial_writestring}

-- `sent d` are the bytes sent, and `delay d` the number of polls for which the transmitter is still
-- full. A poll only passes time, and a byte written while it is empty is sent.
pub record Uart {D : Type 0} (bus : Bus D) (port : ℕ) : Type 0 where
  pub sent : D → List ℕ
  pub delay : D → ℕ
  pub poll_sent : (d : D) → sent (bus.inb (register port 5) d).1 ≡ sent d
  pub poll_delay : (d : D) → delay (bus.inb (register port 5) d).1 ≡ delay d - 1
  pub poll_empty :
      (d : D) → (bit_and (bus.inb (register port 5) d).0 0x20 == 0) ≡ not (delay d == 0)
  pub write_sent : (c : ℕ) (d : D) → delay d ≡ 0 → sent (bus.outb port c d) ≡ sent d ++ c ∷ []

module _ {D : Type 0} (bus : Bus D) (port : ℕ) (uart : Uart bus port) where
  open uart use {sent, delay, poll_sent, poll_delay, poll_empty, write_sent}

  serial_putchar_lem :
      (fuel c : ℕ) (d : D)
      → delay d < fuel
      → (d' : D) × (serial_putchar bus fuel port c d ≡ some d') × (sent d' ≡ sent d ++ c ∷ [])
  unfolding serial_putchar is_transmit_empty
  serial_putchar_lem zero c d h = elim h [ ]
  serial_putchar_lem (suc n) c d h =
      let d1 = (bus.inb (register port 5) d).1 in
      elim (Bool-cases (delay d == 0)) [
        | inl free ↦
            let empty : (bit_and (bus.inb (register port 5) d).0 0x20 == 0) ≡ false =
              poll_empty d ∙ ap not free in
            (
              bus.outb port c d1,
              rw empty refl,
              write_sent c d1 (ground (arith, poll_delay d)) ∙ ap (λ s. s ++ c ∷ []) (poll_sent d),
            )
        | inr busy ↦
            let full : (bit_and (bus.inb (register port 5) d).0 0x20 == 0) ≡ true =
              poll_empty d ∙ ap not busy in
            let (d', e, out) = serial_putchar_lem n c d1 (ground (arith, poll_delay d)) in
            (d', rw full e, out ∙ ap (λ s. s ++ c ∷ []) (poll_sent d))
      ]

  -- On a UART whose transmitter is full for fewer polls than the fuel of each character, `serial_writestring`
  -- ends, and it has sent exactly the bytes of the string, in their order.
  pub serial_writestring_lem :
      (fuel : ℕ) (text : List ℕ) (d : D)
      → ((d : D) → delay d < fuel)
      → (d' : D) × (serial_writestring bus fuel port text d ≡ some d') × (sent d' ≡ sent d ++ text)
  unfolding serial_writestring
  serial_writestring_lem fuel [] d h = (d, refl, sym (append-nil (sent d)))
  serial_writestring_lem fuel (c ∷ text) d h =
      let (d1, e1, out1) = serial_putchar_lem fuel c d (h d) in
      let (d', e, out) = serial_writestring_lem fuel text d1 h in
      (d', rw e1 e, out ∙ ap (λ s. s ++ text) out1 ∙ append_assoc (sent d) (c ∷ []) text)
