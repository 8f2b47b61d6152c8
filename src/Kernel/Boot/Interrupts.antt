-- ===== src/Kernel/Boot/Interrupts.antt =====
-- The timer and the keyboard, which `kernel_main` of munux-os/kernel/kernel.c starts before it lets
-- interrupts in. The addresses of the two handlers are parameters.
use munux.Common.{◌>>=◌, ℕ, ◌≡◌, ◌≢◌, refl, Option, some, [], ◌∷◌, ◌==◌, if◌then◌else◌, arith}
use munux.Common.Text.{bytes_of}
use munux.Interrupts.Idt.{Idt, register_interrupt_handler, irq_handler}
use munux.Interrupts.Idt.Dispatch.{calls, irq_handler_lem}
use munux.Drivers.Ports.{Bus}
use munux.Drivers.Keyboard
use munux.Drivers.Keyboard.{Keyboard}
use munux.Drivers.Timer.{timer_init, timer_divisor}
use munux.Kernel.Console.{Console, klog}

-- What is started: the counter of the timer, the table, the keyboard, the device and the log.
pub record Started (D : Type 0) : Type 0 where
  pub ticks : ℕ
  pub table : Idt
  pub keyboard : Keyboard
  pub device : D
  pub console : Console

module _ {D : Type 0} (bus : Bus D) (timer_handler keyboard_handler : ℕ) where
  -- `kernel_main`, from `timer_init` to `sti`.
  pub start_drivers : Idt → Keyboard → D → Console → Option (Started D)
  start_drivers t k d s = timer_init bus timer_handler 100 t d >>= λ timer. some (record {
    ticks = timer.0;
    table = register_interrupt_handler 33 keyboard_handler (timer.1);
    keyboard = Keyboard.init k;
    device = timer.2;
    console = klog (bytes_of "[OK] Interrupcoes habilitadas (sti)\n") (
        klog (bytes_of "[OK] Teclado PS/2 (IRQ1)\n")
          (klog (bytes_of "[OK] Timer PIT @ 100 Hz (IRQ0)\n") s));
  })

  -- Over a table without handlers, and with handlers at addresses other than 0, the start of the
  -- drivers ends; of the interrupts of devices, the
  -- timer's then calls its handler alone, the keyboard's calls its own alone, and no other calls any.
  -- The counter stands at 0, the ring of the keyboard is empty, and the timer got the divisor 11931,
  -- the low byte first.
  pub start_drivers_lem :
      (t : Idt) (k : Keyboard) (d : D) (s : Console)
      → ((v : ℕ) → t.handlers v ≡ 0)
      → timer_handler ≢ 0
      → keyboard_handler ≢ 0
      → (b : Started D) × (start_drivers t k d s ≡ some b)
        × ((irq in_service : ℕ)
            → calls (irq_handler b.table irq in_service) ≡ (
                if irq == 32
                then timer_handler ∷ []
                else if irq == 33
                then keyboard_handler ∷ []
                else []))
        × (b.ticks ≡ 0)
        × (b.keyboard.read_pos ≡ b.keyboard.write_pos)
        × (b.device ≡ bus.outb 0x40 0x2e (bus.outb 0x40 0x9b (bus.outb 0x43 0x36 d)))
  unfolding start_drivers timer_init timer_divisor register_interrupt_handler Keyboard.init
  start_drivers_lem t k d s empty th kh =
      let table =
        register_interrupt_handler 33 keyboard_handler
          (register_interrupt_handler 32 timer_handler t) in
      let b : Started D = record {
        ticks = 0;
        table = table;
        keyboard = Keyboard.init k;
        device = bus.outb 0x40 0x2e (bus.outb 0x40 0x9b (bus.outb 0x43 0x36 d));
        console = klog (bytes_of "[OK] Interrupcoes habilitadas (sti)\n") (
            klog (bytes_of "[OK] Teclado PS/2 (IRQ1)\n")
              (klog (bytes_of "[OK] Timer PIT @ 100 Hz (IRQ0)\n") s));
      } in
      (
        b,
        refl,
        λ irq in_service.
            let (_, _, called) = irq_handler_lem table irq in_service in
            ground (arith, called, empty irq, th, kh),
        refl,
        refl,
        refl,
      )
