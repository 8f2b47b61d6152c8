-- ===== src/Process/Scheduler/Tests.antt =====
-- Runs of the scheduler, and its theorems at concrete states.
use munux.Common.{ℕ, ◌≡◌, refl, Option, none, some, List, [], ◌∷◌, ◌==◌, if◌then◌else◌, arith}
use munux.Process.Pcb.{ProcessState, ready, running, Pcb, System, default_quantum}
use munux.Process.Scheduler.{
  last_in_queue, link_last, enqueue, add_process, select_below, select_next_process, dispatch,
  schedule,
}
use munux.Process.Scheduler.Queues.{AreQueues, IsQueue, replace, AreQueues-replace}
use munux.Process.Scheduler.Select.{add_process_lem}

abbrev block : ℕ → ℕ → ProcessState → Pcb
block next priority state = record {
  pid = 1;
  name = [];
  state = state;
  priority = priority;
  context = record {
    eax = 0;
    ebx = 0;
    ecx = 0;
    edx = 0;
    esi = 0;
    edi = 0;
    ebp = 0;
    esp = 0;
    eip = 0;
    eflags = 0;
    cr3 = 0;
  };
  page_dir = 0;
  kernel_stack = 0;
  user_stack = 0;
  quantum = 0;
  total_time = 0;
  next = next;
  parent = 0;
}

-- The blocks 16 and 32 in the queue of priority 2; 48 waits to be added.
abbrev two : System
two = record {
  pcbs = λ a. block (if a == 16 then 32 else 16) 2 (if a == 32 then running else ready);
  ready_queue = λ i. if i == 2 then 16 else 0;
  current = 32;
  idle = 64;
  process_list = 0;
  next_pid = 5;
}

abbrev no_queues : ℕ → List ℕ
no_queues i = []

abbrev queues : ℕ → List ℕ
queues = replace no_queues 2 (16 ∷ 32 ∷ [])

empty-IsQueue : (i : ℕ) → (two.ready_queue i ≡ 0) → IsQueue two i []
empty-IsQueue i e = record { circle = e; distinct = tt; belong = λ a h. ground arith }

two-IsQueue : IsQueue two 2 (16 ∷ 32 ∷ [])
two-IsQueue = record {
  circle = (refl, (refl, (refl, refl)));
  distinct = (refl, (refl, tt));
  belong = λ a h. (ground arith, refl);
}

two-AreQueues : AreQueues two queues
two-AreQueues =
    AreQueues-replace two no_queues 2 (16 ∷ 32 ∷ []) two-IsQueue
      λ j l ne. empty-IsQueue j (ground arith)

add_process_lem_example :
    (t : System) × (add_process 2 48 two ≡ some t)
    × AreQueues t (replace queues 2 (16 ∷ 32 ∷ 48 ∷ []))
    × ((t.pcbs 48).state ≡ ready)
    × ((t.pcbs 48).quantum ≡ default_quantum)
    × (t.current ≡ 32)
add_process_lem_example =
    add_process_lem 2 48 two queues two-AreQueues (ground arith) refl (omega arith)

-- What the code of `schedule` does to a process added while another of its priority runs: here 32
-- ran and 48 was added behind it; 32 is linked in once more behind 48, and 48 is in no queue
-- any more.
abbrev three : System
three = record two {
  pcbs = λ a.
      block (if a == 16 then 32 else if a == 32 then 48 else 16) 2
        (if a == 32 then running else ready);
}

abbrev next_of : ℕ → Option (System × Option (ℕ × ℕ)) → ℕ
next_of a none = 0
next_of a (some (s, _)) = (s.pcbs a).next

lost_before :
    ((three.pcbs 16).next ≡ 32) × ((three.pcbs 32).next ≡ 48) × ((three.pcbs 48).next ≡ 16)
lost_before = (refl, refl, refl)

lost :
    (next_of 16 (schedule 3 three) ≡ 32)
    × (next_of 32 (schedule 3 three) ≡ 16)
    × (next_of 48 (schedule 3 three) ≡ 32)
unfolding schedule add_process enqueue link_last last_in_queue select_next_process select_below
    dispatch
lost = (refl, refl, refl)
