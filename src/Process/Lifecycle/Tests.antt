-- ===== src/Process/Lifecycle/Tests.antt =====
-- The theorems on the process list at concrete states.
use munux.Common.{
  false, List, ℕ, ◌+◌, ◌/◌, ◌≡◌, refl, none, some, [], ◌∷◌, ◌==◌, if◌then◌else◌, arith,
}
use munux.Process.Links.{has}
use munux.Process.Scheduler.Cut.{without}
use munux.Process.Lifecycle.{terminate}
use munux.Process.Lifecycle.Termination.{terminate_lem}
use munux.Common.Word.{sub32}
use munux.Process.Pcb.{terminated, ready, System}
use munux.Process.Scheduler.{add_process}
use munux.Process.Lifecycle.{register, find_by_pid, create}
use munux.Process.Lifecycle.Registry.{Registered, find_by_pid-add_process, create_lem}

abbrev empty : System
empty = record {
  pcbs = λ a. record {
    pid = a / 16;
    name = [];
    state = ready;
    priority = 1;
    context = record {
      eax = 0;
      ebx = 0;
      ecx = 0;
      edx = 0;
      esi = 0;
      edi = 0;
      ebp = 0;
      esp = 0;
      eip = 0;
      eflags = 0;
      cr3 = 0;
    };
    page_dir = 0;
    kernel_stack = 0;
    user_stack = 0;
    quantum = 0;
    total_time = 0;
    next = if a == 16 then 32 else 0;
    parent = 0;
  };
  ready_queue = λ i. 0;
  current = 0;
  idle = 0;
  process_list = 16;
  next_pid = 3;
}

empty-Registered : Registered empty (16 ∷ 32 ∷ [])
empty-Registered = record {
  chain = (refl, (refl, refl));
  distinct = (refl, (refl, tt));
  no_null = refl;
}

find_by_pid-add_process_example :
    (t : System) × (add_process 0 16 empty ≡ some t)
    × ((n : ℕ) → find_by_pid n t 2 ≡ none)
    × ((n q : ℕ) → register n q t ≡ none)
find_by_pid-add_process_example =
    find_by_pid-add_process 0 16 2 empty (ground arith) refl refl (ground arith)

-- An allocator that hands out one address after the other.
abbrev bump : ℕ → ℕ → ℕ × ℕ
bump size h = (h, h + size)

create_lem_example :
    (h : ℕ) × (t : System) × (create bump 2 128 4096 (b's' ∷ b'h' ∷ []) 0x1000 1 0x800 empty
      ≡ some (0x800, h, t))
    × Registered t (16 ∷ 32 ∷ 0x800 ∷ [])
    × ((t.pcbs 0x800).pid ≡ 3)
    × (t.next_pid ≡ 4)
create_lem_example =
    create_lem bump 2 128 4096 (b's' ∷ b'h' ∷ []) 0x1000 1 0x800 empty (16 ∷ 32 ∷ [])
      empty-Registered (ground arith) refl (omega arith)

-- A heap that is the list of what was given back, the last first.
abbrev give : ℕ → List ℕ → List ℕ
give p h = p ∷ h

terminate_lem_example :
    (t : System) × (terminate give 2 32 [] empty
      ≡ some (
        give 32 (
            give
              (sub32 (empty.pcbs 32).user_stack 8192)
              (give (sub32 (empty.pcbs 32).kernel_stack 8192) [])),
        t,
        none,
      ))
    × Registered t (without 32 (16 ∷ 32 ∷ []))
    × (has 32 (without 32 (16 ∷ 32 ∷ [])) ≡ false)
    × ((t.pcbs 32).state ≡ terminated)
terminate_lem_example =
    terminate_lem give 2 32 (16 ∷ 32 ∷ []) [] empty empty-Registered refl (ground arith)
      (omega arith)
