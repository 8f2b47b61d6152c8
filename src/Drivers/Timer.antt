-- ===== src/Drivers/Timer.antt =====
-- munux-os/kernel/drivers/timer.c: the tick counter, and the wait for a number of ticks.
pub mod Wait
mod Tests
use munux.Common.{
  ◌>>=◌, ℕ, zero, suc, ◌+◌, ◌/◌, ◌^◌, bit_and, Option, none, some, ltb, if◌then◌else◌,
}
use munux.Common.Word.{add32}
use munux.Drivers.Ports.{Bus}
use munux.Interrupts.Idt.{Idt, register_interrupt_handler}

abbrev pub pit_frequency : ℕ
pit_frequency = 1193182

-- `timer_callback`, on `timer_ticks`.
pub timer_callback : ℕ → ℕ
timer_callback ticks = add32 ticks 1

-- What `timer_init` sends to port 0x40 for a frequency: the low and the high byte of the divisor.
-- A frequency of 0 is undefined behaviour, here `none`.
unfoldable pub timer_divisor : ℕ → Option (ℕ × ℕ)
timer_divisor zero = none
timer_divisor (suc f) =
    let divisor = pit_frequency / suc f in
    some (bit_and divisor 0xff, bit_and (divisor / 2 ^ 8) 0xff)

-- `timer_init`, with the address of `timer_callback`: the counter, the table and the device.
unfoldable pub timer_init :
    {D : Type 0} → Bus D → (callback frequency : ℕ) → Idt → D → Option (ℕ × Idt × D)
timer_init bus callback frequency table d = timer_divisor frequency >>= λ bytes. some (
  0,
  register_interrupt_handler 32 callback table,
  bus.outb 0x40 bytes.1 (bus.outb 0x40 bytes.0 (bus.outb 0x43 0x36 d)),
)

abbrev pub count_one : Option ℕ → Option ℕ
count_one none = none
count_one (some k) = some (k + 1)

-- The loop of `timer_wait`, in a run with `n` timer interrupts to come: how many of them it takes,
-- or `none` if it still waits after the last.
pub wait_loop : (n ticks end_tick : ℕ) → Option ℕ
wait_loop zero ticks end_tick = if ltb ticks end_tick then none else some 0
wait_loop (suc n) ticks end_tick =
    let later = wait_loop n (timer_callback ticks) end_tick in
    if ltb ticks end_tick then count_one later else some 0

-- `timer_wait`
pub timer_wait : (n now ticks : ℕ) → Option ℕ
timer_wait n now ticks = wait_loop n now (add32 now ticks)
