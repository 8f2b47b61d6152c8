-- ===== src/Drivers/Timer/Tests.antt =====
-- The theorem on the timer at a concrete counter.
use munux.Common.{◌≡◌, some, arith}
use munux.Drivers.Timer.{timer_wait}
use munux.Drivers.Timer.Wait.{timer_wait_lem}

timer_wait_lem_example : timer_wait 8 100 5 ≡ some 5
timer_wait_lem_example = timer_wait_lem 8 100 5 (omega arith) (omega arith) (omega arith)
