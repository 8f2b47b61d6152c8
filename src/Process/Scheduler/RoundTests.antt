-- ===== src/Process/Scheduler/RoundTests.antt =====
-- The theorems on rounds, turns and removal at a concrete scheduler.
use munux.Common.{
  ℕ, ◌+◌, ◌*◌, ◌≡◌, refl, inl, some, List, [], ◌∷◌, ◌==◌, false, if◌then◌else◌, arith,
}
use munux.Process.Pcb.{Pcb, System, running}
use munux.Process.Scheduler.{remove_process}
use munux.Process.Scheduler.Queues.{AreQueues, replace, AreQueues-replace}
use munux.Process.Scheduler.Robin.{
  Robin, Refines, Fits, ticks, switches, run_ticks, run_ticks-ticks,
}
use munux.Process.Scheduler.Turns.{turn_comes}
use munux.Process.Scheduler.Removal.{remove_process_lem}
use munux.Process.Scheduler.Cut.{without}
use munux.Process.Links.{has}

abbrev block : (next quantum : ℕ) → Pcb
block next quantum = record {
  pid = 1;
  name = [];
  state = running;
  priority = 2;
  context = record {
    eax = 0;
    ebx = 0;
    ecx = 0;
    edx = 0;
    esi = 0;
    edi = 0;
    ebp = 0;
    esp = 0;
    eip = 0;
    eflags = 0;
    cr3 = 0;
  };
  page_dir = 0;
  kernel_stack = 0;
  user_stack = 0;
  quantum = quantum;
  total_time = 0;
  next = next;
  parent = 0;
}

-- The block 48 runs with three ticks left; 16 and 32 are behind it in the queue of priority 2.
abbrev round : System
round = record {
  pcbs = λ a. block (if a == 16 then 32 else if a == 32 then 48 else 16) 3;
  ready_queue = λ i. if i == 2 then 16 else 0;
  current = 48;
  idle = 64;
  process_list = 0;
  next_pid = 5;
}

abbrev no_queues : ℕ → List ℕ
no_queues i = []

abbrev queues : ℕ → List ℕ
queues = replace no_queues 2 (16 ∷ 32 ∷ 48 ∷ [])

round-AreQueues : AreQueues round queues
round-AreQueues =
    AreQueues-replace round no_queues 2 (16 ∷ 32 ∷ 48 ∷ [])
      (record {
        circle = (refl, (refl, (refl, (refl, refl))));
        distinct = (refl, (refl, (refl, tt)));
        belong = λ a h. (ground arith, refl);
      })
      λ j l ne. record { circle = ground arith; distinct = tt; belong = λ a h. ground arith }

abbrev robin : Robin
robin = record { queues = queues; current = 48; left = 3 }

round-Refines : Refines round robin
round-Refines = record {
  steady = record {
    queues = round-AreQueues;
    current_ne = ground arith;
    front = 16 ∷ 32 ∷ [];
    place = refl;
    active = inl refl;
  };
  same_current = refl;
  same_left = refl;
}

robin-Fits : Fits 3 robin
robin-Fits i = ground arith

run_ticks-ticks_example :
    (t : System) × (run_ticks 3 60 round ≡ some (t, switches 60 robin)) × Refines t (ticks 60 robin)
run_ticks-ticks_example = run_ticks-ticks 3 60 round robin round-Refines robin-Fits

-- 32 is the second in the queue: its turn comes after 3 and 50 ticks.
turn_comes_example :
    (t : System) × (run_ticks 3 (3 + 50 * 1) round ≡ some (t, switches (3 + 50 * 1) robin))
    × (t.current ≡ 32)
turn_comes_example =
    turn_comes 3 2 2 32 (16 ∷ []) (48 ∷ []) round robin round-Refines robin-Fits (omega arith) refl
      refl (λ j a b. ground arith)

remove_process_lem_example :
    (t : System) × (remove_process 3 32 round ≡ some t)
    × AreQueues t (replace queues 2 (without 32 (16 ∷ 32 ∷ 48 ∷ [])))
    × (has 32 (without 32 (16 ∷ 32 ∷ 48 ∷ [])) ≡ false)
remove_process_lem_example = remove_process_lem 3 32 round queues round-AreQueues refl (omega arith)

without_middle : without 32 (16 ∷ 32 ∷ 48 ∷ []) ≡ 16 ∷ 48 ∷ []
unfolding without
without_middle = refl
