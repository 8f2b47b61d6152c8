-- ===== src/Process/Lifecycle.antt =====
-- munux-os/kernel/process/process.c. The allocator behind `kmalloc` and `kfree`, which is not C
-- code of the kernel, is a parameter with a state of its own; it changes no process block, so that
-- a freed block is read as it was.
pub mod Registry
pub mod Termination
mod Tests
use munux.Common.{
  ℕ, zero, suc, ◌+◌, ◌-◌, Option, none, some, ◌==◌, if◌then◌else◌, List, [], ◌∷◌, take,
}
use munux.Common.Word.{add32, sub32}
use munux.Process.Pcb.{
  ProcessState, ready, terminated, CpuContext, Pcb, System, default_quantum, priority_low, modify,
  set_next,
}
use munux.Process.Scheduler.{schedule}

-- The loop that walks from `p` to the last block of the process list.
pub list_end : ℕ → (ℕ → Pcb) → ℕ → Option ℕ
list_end zero m p = none
list_end (suc n) m p =
    let later = list_end n m (m p).next in if (m p).next == 0 then some p else later

abbrev pub link_behind : ℕ → System → Option ℕ → Option System
link_behind process s none = none
link_behind process s (some p) = some (record s { pcbs = set_next s.pcbs p process })

-- The end of `process_create`: the block goes to the end of the process list.
pub register : ℕ → ℕ → System → Option System
register fuel process s =
    if s.process_list == 0
    then some (record s { process_list = process })
    else link_behind process s (list_end fuel s.pcbs s.process_list)

-- The context of a process that has not run.
abbrev pub new_context : ℕ → ℕ → ℕ → CpuContext
new_context entry_point stack page_dir = record {
  eax = 0;
  ebx = 0;
  ecx = 0;
  edx = 0;
  esi = 0;
  edi = 0;
  ebp = stack;
  esp = stack;
  eip = entry_point;
  eflags = 0x202;
  cr3 = page_dir;
}

-- The block that `process_create` fills in, for a name without its NUL.
abbrev pub new_pcb : List ℕ → ℕ → ℕ → ℕ → ℕ → ℕ → System → Pcb
new_pcb name entry_point priority kernel_stack user_stack page_dir s = record {
  pid = s.next_pid;
  name = take 31 name;
  state = ready;
  priority = priority;
  context = new_context entry_point user_stack page_dir;
  page_dir = page_dir;
  kernel_stack = kernel_stack;
  user_stack = user_stack;
  quantum = default_quantum;
  total_time = 0;
  next = 0;
  parent = s.current;
}

-- `p`, then its `next` and so on, to the block with the number or to the end of the list.
pub find_from : ℕ → (ℕ → Pcb) → ℕ → ℕ → Option ℕ
find_from zero m pid p = none
find_from (suc n) m pid p =
    let later = find_from n m pid (m p).next in
    if p == 0 then some 0 else if (m p).pid == pid then some p else later

-- `process_find_by_pid`; 0 is its null pointer, `none` a walk longer than the fuel.
pub find_by_pid : ℕ → System → ℕ → Option ℕ
find_by_pid fuel s pid = find_from fuel s.pcbs pid s.process_list

-- The loop of `process_terminate` that looks for the block before `process`.
pub find_previous : ℕ → (ℕ → Pcb) → ℕ → ℕ → Option ℕ
find_previous zero m process p = none
find_previous (suc n) m process p =
    let later = find_previous n m process (m p).next in
    if p == 0 then some 0 else if (m p).next == process then some p else later

abbrev pub bypass : ℕ → System → Option ℕ → Option System
bypass process s none = none
bypass process s (some p) =
    some (if p == 0 then s else record s { pcbs = set_next s.pcbs p (s.pcbs process).next })

-- `process_terminate` takes the block out of the process list.
pub unregister : ℕ → ℕ → System → Option System
unregister fuel process s =
    if s.process_list == process
    then some (record s { process_list = (s.pcbs process).next })
    else bypass process s (find_previous fuel s.pcbs process s.process_list)

module _ {ℓ} {Heap : Type ℓ} (kmalloc : ℕ → Heap → ℕ × Heap) where
  abbrev pub with_heap : Heap → ℕ → Option System → Option (ℕ × Heap × System)
  with_heap h process none = none
  with_heap h process (some s) = some (process, h, s)

  -- `process_create`; `size` is that of a `process_t`, and `page_dir` the current page directory.
  pub create : ℕ → ℕ → ℕ → List ℕ → ℕ → ℕ → Heap → System → Option (ℕ × Heap × System)
  create fuel size page_dir name entry_point priority h s =
      let (process, h1) = kmalloc size h in
      let (kernel_base, h2) = kmalloc 8192 h1 in
      let (user_base, h3) = kmalloc 8192 h2 in
      let block =
        new_pcb name entry_point priority (add32 kernel_base 8192) (add32 user_base 8192) page_dir
          s in
      if process == 0
      then some (0, h1, s)
      else with_heap h3 process (
          register fuel process
            (record s { pcbs = modify s.pcbs process λ _. block; next_pid = add32 s.next_pid 1 }))

  abbrev pub become_idle : Option (ℕ × Heap × System) → Option (Heap × System)
  become_idle none = none
  become_idle (some (process, h, s)) = some (h, record s { idle = process; current = process })

  -- `process_init`
  pub process_init : ℕ → ℕ → ℕ → ℕ → Heap → System → Option (Heap × System)
  process_init fuel size page_dir idle_task h s =
      become_idle
        (create fuel size page_dir (b'i' ∷ b'd' ∷ b'l' ∷ b'e' ∷ []) idle_task priority_low h s)

module _ {ℓ} {Heap : Type ℓ} (kfree : ℕ → Heap → Heap) where
  -- What `process_terminate` gives back: the two stacks and the block.
  abbrev pub release : Pcb → ℕ → Heap → Heap
  release b process h =
      kfree process (kfree (sub32 b.user_stack 8192) (kfree (sub32 b.kernel_stack 8192) h))

  abbrev pub after_switch :
      Heap → Option (System × Option (ℕ × ℕ)) → Option (Heap × System × Option (ℕ × ℕ))
  after_switch h none = none
  after_switch h (some r) = some (h, r.0, r.1)

  abbrev pub reschedule : ℕ → ℕ → Heap → Option System → Option (Heap × System × Option (ℕ × ℕ))
  reschedule fuel process h none = none
  reschedule fuel process h (some s) =
      if s.current == process
      then after_switch (release (s.pcbs process) process h) (schedule fuel s)
      else some (release (s.pcbs process) process h, s, none)

  -- `process_terminate`
  pub terminate : ℕ → ℕ → Heap → System → Option (Heap × System × Option (ℕ × ℕ))
  terminate fuel process h s =
      if process == 0
      then some (h, s, none)
      else reschedule fuel process h (
          unregister fuel process
            (record s { pcbs = modify s.pcbs process λ b. record b { state = terminated } }))
