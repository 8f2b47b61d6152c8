-- ===== src/Process/Scheduler.antt =====
-- munux-os/kernel/process/scheduler.c: the ready queues, one circle of blocks for each priority.
-- A walk along `next` takes the number of steps it may go, and `none` means that it goes on.
pub mod Queues
pub mod Select
pub mod Again
pub mod Rounds
pub mod Robin
pub mod Turns
pub mod Cut
pub mod Removal
mod RoundTests
mod Tests
use munux.Common.{
  ℕ, zero, suc, ◌+◌, ◌-◌, Bool, true, false, Option, none, some, ◌==◌, ltb, if◌then◌else◌, min,
}
use munux.Common.Word.{add32}
use munux.Common.Memory.{update}
use munux.Process.Pcb.{
  ProcessState, ready, running, is_running, Pcb, System, default_quantum, modify, set_next,
}

-- `prio > 3` counts as 3.
abbrev pub queue_index : Pcb → ℕ
queue_index b = if ltb 3 b.priority then 3 else b.priority

-- The last block of the circle: from `p` to the one whose `next` is the head.
pub last_in_queue : ℕ → (ℕ → Pcb) → ℕ → ℕ → Option ℕ
last_in_queue zero m head p = none
last_in_queue (suc n) m head p =
    let later = last_in_queue n m head (m p).next in if (m p).next == head then some p else later

-- The end of `scheduler_add_process`: the block goes behind the last one.
pub link_last : ℕ → ℕ → System → Option ℕ → Option System
link_last p head s none = none
link_last p head s (some last) = some (record s { pcbs = set_next (set_next s.pcbs last p) p head })

-- `scheduler_add_process`, for a process that is not 0, once the state and the quantum are set.
pub enqueue : ℕ → ℕ → ℕ → System → Option System
enqueue fuel prio p s =
    if s.ready_queue prio == 0
    then some (record s { pcbs = set_next s.pcbs p p; ready_queue = update s.ready_queue prio p })
    else link_last p (s.ready_queue prio) s
        (last_in_queue fuel s.pcbs (s.ready_queue prio) (s.ready_queue prio))

abbrev pub make_ready : Pcb → Pcb
make_ready b = record b { state = ready; quantum = default_quantum }

-- `scheduler_add_process`
pub add_process : ℕ → ℕ → System → Option System
add_process fuel p s =
    if p == 0
    then some s
    else enqueue fuel (queue_index (s.pcbs p)) p (record s { pcbs = modify s.pcbs p make_ready })

-- The loop of `scheduler_remove_process` from the block `p` on.
pub unlink : ℕ → ℕ → ℕ → ℕ → System → Option System
unlink zero prio process p s = none
unlink (suc n) prio process p s =
    let later = unlink n prio process (s.pcbs p).next s in
    if (s.pcbs p).next == process
    then some (record s {
      pcbs = set_next s.pcbs p (s.pcbs process).next;
      ready_queue =
          if s.ready_queue prio == process
          then update s.ready_queue prio (set_next s.pcbs p (s.pcbs process).next process).next
          else s.ready_queue;
    })
    else if (s.pcbs p).next == s.ready_queue prio
    then some s
    else later

-- `scheduler_remove_process`
pub remove_process : ℕ → ℕ → System → Option System
remove_process fuel process s =
    let prio = queue_index (s.pcbs process) in
    if process == 0
    then some s
    else if s.ready_queue prio == 0
    then some s
    else if (s.pcbs (s.ready_queue prio)).next == s.ready_queue prio
    then some (record s { ready_queue = update s.ready_queue prio 0 })
    else unlink fuel prio process (s.ready_queue prio) s

-- The loop of `select_next_process` over the priorities below `n`, from the highest.
pub select_below : ℕ → System → ℕ × System
select_below zero s = (s.idle, s)
select_below (suc prio) s = if s.ready_queue prio == 0 then select_below prio s else (
  s.ready_queue prio,
  record s { ready_queue = update s.ready_queue prio (s.pcbs (s.ready_queue prio)).next },
)

pub select_next_process : System → ℕ × System
select_next_process s = select_below 4 s

-- The end of `schedule`: the process to run, and the two processes between which
-- `switch_to_process` switches, or `none` where the current one goes on.
pub dispatch : ℕ × System → System × Option (ℕ × ℕ)
dispatch (chosen, s) =
    let next = if chosen == 0 then s.idle else chosen in
    if next == s.current
    then (
      record s { pcbs = modify s.pcbs s.current (λ b. record b { quantum = default_quantum }) },
      none,
    )
    else (
      record s {
        current = next;
        pcbs = modify s.pcbs next (λ b. record b { state = running; quantum = default_quantum });
      },
      some (s.current, next),
    )

abbrev pub dispatch_after : Option System → Option (System × Option (ℕ × ℕ))
dispatch_after none = none
dispatch_after (some s) = some (dispatch (select_next_process s))

-- `schedule`
pub schedule : ℕ → System → Option (System × Option (ℕ × ℕ))
schedule fuel s =
    if s.current == 0
    then some (s, none)
    else dispatch_after
        (if is_running (s.pcbs s.current).state then add_process fuel s.current s else some s)

-- `yield`, when there is a current process.
pub yield_cpu : ℕ → System → Option (System × Option (ℕ × ℕ))
yield_cpu fuel s =
    schedule fuel (record s { pcbs = modify s.pcbs s.current (λ b. record b { quantum = 0 }) })

abbrev pub count_tick : Pcb → Pcb
count_tick b =
    if b.quantum == 0
    then b
    else record b { quantum = b.quantum - 1; total_time = add32 b.total_time 1 }

-- `scheduler_tick`
pub scheduler_tick : ℕ → System → Option (System × Option (ℕ × ℕ))
scheduler_tick fuel s =
    let s' = record s { pcbs = modify s.pcbs s.current count_tick } in
    if s.current == 0
    then some (s, none)
    else if (s'.pcbs s'.current).quantum == 0
    then schedule fuel s'
    else some (s', none)

-- `scheduler_init`, less the registration of `scheduler_tick` for vector 32.
pub scheduler_init : System → System
scheduler_init s = record s { ready_queue = λ q. if ltb q 4 then 0 else s.ready_queue q }
