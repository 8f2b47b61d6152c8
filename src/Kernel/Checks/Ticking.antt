-- ===== src/Kernel/Checks/Ticking.antt =====
-- The wait of the start for the first interrupt of the timer.
use munux.Common.{
  ℕ, zero, suc, ◌+◌, ◌-◌, ◌≤◌, ◌<◌, ◌≡◌, ◌≢◌, ◌^◌, refl, ◌⊎◌, inl, inr, ap, ◌∙◌, ◌++◌, some, List,
  ltb, ◌==◌, All, Bool-cases, arith,
}
use munux.Common.Text.{bytes_of}
use munux.Common.Memory.{Memory}
use munux.Libk.Conv.Digits.{IsDigitOf, value_of}
use munux.Drivers.Ports.{Bus}
use munux.Drivers.Serial.{com1, serial_writestring}
use munux.Drivers.Serial.Uart.{Uart, serial_writestring_lem}
use munux.Kernel.Panic.{kernel_panic}
use munux.Kernel.Console.{Console, klog, klog-append}
use munux.Kernel.Boot.Detect.{klog_uint_lem}
use munux.Kernel.Checks.{done, halted, wait_tick, spin_limit, boot_selfcheck}

-- The loop ends on the first call with another value, or at the limit.
wait_tick_lem :
    (left : ℕ) (ticks : ℕ → ℕ) (t0 i : ℕ)
    → (j : ℕ) × (wait_tick left ticks t0 i ≡ j + 1)
      × (i ≤ j)
      × (j ≤ i + left)
      × ((ticks j ≢ t0) ⊎ (j ≡ i + left))
unfolding wait_tick
wait_tick_lem zero ticks t0 i = (i, refl, omega arith, omega arith, inr (omega arith))
wait_tick_lem (suc left) ticks t0 i = elim (Bool-cases (ticks i == t0)) [
  | inl same ↦
      let (j, e, low, high, why) = wait_tick_lem left ticks t0 (i + 1) in
      (
        j,
        rw same e,
        omega arith,
        omega arith,
        elim why [ inl moved ↦ inl moved | inr last ↦ inr (omega (arith, last)) ],
      )
  | inr other ↦ (i, rw other refl, omega arith, omega arith, inl (ground arith))
]

abbrev pub waiting_text : List ℕ
waiting_text = bytes_of "[chk] Aguardando IRQ0 (timer) apos sti...\n"

-- The log up to the count.
abbrev pub announced : Console → Console
announced s = klog (bytes_of "[chk] IRQ0 OK: timer avancou para ") (klog waiting_text s)

-- All that is logged where the timer moves.
abbrev pub advance_text : List ℕ → List ℕ
advance_text text =
    bytes_of "[chk] Aguardando IRQ0 (timer) apos sti...\n"
    ++ (bytes_of "[chk] IRQ0 OK: timer avancou para "
        ++ (text ++ bytes_of " tick(s) via interrupcao.\n"))

one_log :
    (text : List ℕ) (s : Console)
    → klog (bytes_of " tick(s) via interrupcao.\n") (klog text (announced s))
      ≡ klog (advance_text text) s
one_log text s =
    let end = bytes_of " tick(s) via interrupcao.\n" in
    let start = bytes_of "[chk] IRQ0 OK: timer avancou para " in
    klog-append text end (announced s)
    ∙ klog-append start (text ++ end) (klog waiting_text s)
    ∙ klog-append waiting_text (start ++ (text ++ end)) s

module _ (ticks : ℕ → ℕ) (counts : (i : ℕ) → ticks i ≤ ticks (i + 1)) where
  later_from : (d i : ℕ) → ticks i ≤ ticks (i + d)
  later_from zero i = let e : i + 0 ≡ i = omega arith in rw e (omega arith)
  later_from (suc d) i =
      let e : i + suc d ≡ i + d + 1 = omega arith in
      rw e (omega (arith, later_from d i, counts (i + d)))

  later : (i j : ℕ) → i ≤ j → ticks i ≤ ticks j
  later i j h = let e : i + (j - i) ≡ j = omega arith in rw e at (later_from (j - i) i)

  -- The last value, once one of the calls returned more than the first.
  advances :
      (left n : ℕ)
      → n ≤ left + 2
      → ticks 0 < ticks n
      → ticks 0 < ticks (wait_tick left ticks (ticks 0) 1)
  advances left n near more =
      let (j, e, low, high, why) = wait_tick_lem left ticks (ticks 0) 1 in
      rw e (elim why [
        | inl moved ↦ omega (arith, later 0 j (omega arith), counts j, moved)
        | inr last ↦ omega (arith, later n (j + 1) (omega (arith, last)))
      ])

  -- While `timer_get_ticks` counts 32-bit numbers and never goes back, either a later call returns more than the first, and what is logged has the digits of that count; or all
  -- the calls up to the limit of the loop and behind it return the same, and it panics.
  pub boot_selfcheck_lem :
      ((i : ℕ) → ticks i < 2 ^ 32)
      → (buf : ℕ) (m : Memory) (s : Console)
      → ((k : ℕ) × (text : List ℕ) × (k ≤ spin_limit + 2)
          × (ticks 0 < ticks k)
          × (value_of 10 text ≡ ticks k)
          × All (IsDigitOf 10) text
          × (boot_selfcheck ticks buf m s
              ≡ done (klog (bytes_of " tick(s) via interrupcao.\n") (klog text (announced s)))))
        ⊎ (((n : ℕ) → n ≤ spin_limit + 2 → ticks n ≡ ticks 0)
            × (boot_selfcheck ticks buf m s
                ≡ halted (
                    kernel_panic
                      (some (bytes_of "[chk] timer nao avancou: IRQ/PIC/sti falhou"))
                      (klog waiting_text s).terminal)))
  unfolding boot_selfcheck
  boot_selfcheck_lem small buf m s =
      let k = wait_tick spin_limit ticks (ticks 0) 1 in
      elim (Bool-cases (ltb (ticks 0) (ticks (wait_tick spin_limit ticks (ticks 0) 1)))) [
        | inl moved ↦
            let (j, e, low, high, _) = wait_tick_lem spin_limit ticks (ticks 0) 1 in
            let (text, logged, value, all, _) =
              klog_uint_lem buf (ticks k) m (announced s) (small k) in
            inl (
              k,
              text,
              rw e (omega (arith, high)),
              ground (arith, moved),
              value,
              all,
              rw (moved, logged) refl,
            )
        | inr still ↦ inr (
          λ n near. ground (arith, still, later 0 n (omega arith), advances spin_limit n near),
          rw still refl,
        )
      ]

  -- On a UART at COM1 whose transmitter is full for fewer polls than the fuel of each character, and
  -- while `timer_get_ticks` counts 32-bit numbers and never goes back, `boot_selfcheck` ends, its wait
  -- for the transmitter included, and the UART has sent what is logged. Either a later call
  -- returns more than the first, and the log has the digits of that count; or all the calls up to the
  -- limit of the loop and behind it return the same, and it panics.
  pub boot_selfcheck-serial_writestring :
      {D : Type 0} (bus : Bus D) (uart : Uart bus com1) (fuel : ℕ) (d : D)
      → ((d : D) → uart.delay d < fuel)
      → ((i : ℕ) → ticks i < 2 ^ 32)
      → (buf : ℕ) (m : Memory) (s : Console)
      → ((k : ℕ) × (text : List ℕ) × (d' : D) × (k ≤ spin_limit + 2)
          × (ticks 0 < ticks k)
          × (value_of 10 text ≡ ticks k)
          × All (IsDigitOf 10) text
          × (boot_selfcheck ticks buf m s ≡ done (klog (advance_text text) s))
          × (serial_writestring bus fuel com1 (advance_text text) d ≡ some d')
          × (uart.sent d' ≡ uart.sent d ++ advance_text text))
        ⊎ ((d' : D) × ((n : ℕ) → n ≤ spin_limit + 2 → ticks n ≡ ticks 0)
            × (boot_selfcheck ticks buf m s
                ≡ halted (
                    kernel_panic
                      (some (bytes_of "[chk] timer nao avancou: IRQ/PIC/sti falhou"))
                      (klog waiting_text s).terminal))
            × (serial_writestring bus fuel com1 waiting_text d ≡ some d')
            × (uart.sent d' ≡ uart.sent d ++ waiting_text))
  boot_selfcheck-serial_writestring bus uart fuel d empties small buf m s =
      elim (boot_selfcheck_lem small buf m s) [
        | inl (k, text, near, more, value, all, e) ↦
            let (d', ran, out) =
              serial_writestring_lem bus com1 uart fuel (advance_text text) d empties in
            inl (k, text, d', near, more, value, all, e ∙ ap done (one_log text s), ran, out)
        | inr (still, e) ↦
            let (d', ran, out) = serial_writestring_lem bus com1 uart fuel waiting_text d empties in
            inr (d', still, e, ran, out)
      ]
