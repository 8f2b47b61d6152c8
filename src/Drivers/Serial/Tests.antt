-- ===== src/Drivers/Serial/Tests.antt =====
-- A UART that meets what the driver relies on.
use munux.Common.{
  ℕ, ◌+◌, ◌-◌, ◌%◌, ◌≡◌, refl, inl, inr, not, some, List, [], ◌∷◌, ◌++◌, bit_and, ◌==◌,
  if◌then◌else◌, arith, Bool-cases,
}
use munux.Common.Text.{bytes_of}
use munux.Drivers.Ports.{Bus}
use munux.Drivers.Serial.{com1, serial_writestring}
use munux.Drivers.Serial.Uart.{Uart, serial_writestring_lem}

-- What is sent, and how long the transmitter is still full, up to four polls.
abbrev line_bus : Bus (List ℕ × ℕ)
line_bus = record {
  inb = λ port d. (if d.1 % 5 == 0 then 0x20 else 0, (d.0, d.1 % 5 - 1));
  inw = λ port d. (0, d);
  outb = λ port v d. (d.0 ++ v ∷ [], d.1 + v);
  outw = λ port v d. d;
}

empty_bit : (n : ℕ) → (bit_and (if n == 0 then 0x20 else 0) 0x20 == 0) ≡ not (n == 0)
empty_bit n = elim (Bool-cases (n == 0)) [ inl e ↦ rw e refl | inr e ↦ rw e refl ]

abbrev line_uart : Uart line_bus com1
line_uart = record {
  sent = λ d. d.0;
  delay = λ d. d.1 % 5;
  poll_sent = λ d. refl;
  poll_delay = λ d. omega arith;
  poll_empty = λ d. empty_bit (d.1 % 5);
  write_sent = λ c d free. refl;
}

serial_writestring_lem_example :
    (d : List ℕ × ℕ) × (serial_writestring line_bus 5 com1 (bytes_of "munux> ") ([], 3) ≡ some d)
    × (d.0 ≡ bytes_of "munux> ")
serial_writestring_lem_example =
    serial_writestring_lem line_bus com1 line_uart 5 (bytes_of "munux> ") ([], 3) (λ d. omega arith)
