-- ===== src/Drivers/Timer/Wait.antt =====
-- How long `timer_wait` waits.
use munux.Common.{
  ℕ, zero, suc, ◌+◌, ◌-◌, ◌^◌, ◌≤◌, ◌<◌, ◌≡◌, some, ltb, if◌then◌else◌, arith, ap, inl, inr,
  Bool-cases,
}
use munux.Common.Word.{add32}
use munux.Drivers.Timer.{timer_callback, wait_loop, timer_wait}

wait_loop_lem :
    (n ticks end_tick : ℕ)
    → end_tick < 2 ^ 32
    → end_tick - ticks ≤ n
    → wait_loop n ticks end_tick ≡ some (end_tick - ticks)
unfolding wait_loop timer_callback
wait_loop_lem zero ticks end_tick h l = ground arith
wait_loop_lem (suc n) ticks end_tick h l = elim (Bool-cases (ltb ticks end_tick)) [
  | inl before ↦
      let rest = wait_loop_lem n (add32 ticks 1) end_tick h (ground arith) in
      rw (before, rest) (ap some (ground arith))
  | inr reached ↦ rw reached (ap some (ground arith))
]

-- From a 32-bit counter `now`, with as many timer interrupts to come as asked for, `timer_wait`
-- returns after exactly that many, if the counter does not wrap meanwhile; if it would wrap, it
-- returns at once.
pub timer_wait_lem :
    (n now ticks : ℕ)
    → now < 2 ^ 32
    → ticks < 2 ^ 32
    → ticks ≤ n
    → timer_wait n now ticks ≡ some (if ltb (now + ticks) (2 ^ 32) then ticks else 0)
unfolding timer_wait
timer_wait_lem n now ticks h t l = ground (arith, wait_loop_lem n now (add32 now ticks))
