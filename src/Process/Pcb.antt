-- ===== src/Process/Pcb.antt =====
-- munux-os/kernel/process/process.h, with the static variables of process.c and scheduler.c.
use munux.Common.{ℕ, ◌≡◌, refl, inl, inr, List, Bool, true, false, ◌==◌, if◌then◌else◌, Bool-cases}
use munux.Common.Memory.{Memory}

pub data ProcessState : Type 0 where
  ready : ProcessState
  running : ProcessState
  blocked : ProcessState
  terminated : ProcessState

abbrev pub is_running : ProcessState → Bool
is_running running = true
is_running _ = false

abbrev pub default_quantum : ℕ
default_quantum = 50

abbrev pub priority_low : ℕ
priority_low = 0

pub record CpuContext : Type 0 where
  pub eax : ℕ
  pub ebx : ℕ
  pub ecx : ℕ
  pub edx : ℕ
  pub esi : ℕ
  pub edi : ℕ
  pub ebp : ℕ
  pub esp : ℕ
  pub eip : ℕ
  pub eflags : ℕ
  pub cr3 : ℕ

-- A `process_t`. The name is the bytes in front of its NUL, a pointer is an address.
pub record Pcb : Type 0 where
  pub pid : ℕ
  pub name : List ℕ
  pub state : ProcessState
  pub priority : ℕ
  pub context : CpuContext
  pub page_dir : ℕ
  pub kernel_stack : ℕ
  pub user_stack : ℕ
  pub quantum : ℕ
  pub total_time : ℕ
  pub next : ℕ
  pub parent : ℕ

-- The process blocks by address, and the static variables.
pub record System : Type 0 where
  pub pcbs : ℕ → Pcb
  pub ready_queue : Memory
  pub current : ℕ
  pub idle : ℕ
  pub process_list : ℕ
  pub next_pid : ℕ

-- A change to the block at one address.
abbrev pub modify : (ℕ → Pcb) → ℕ → (Pcb → Pcb) → ℕ → Pcb
modify m p f q = if q == p then f (m q) else m q

-- `p->next = v`
abbrev pub set_next : (ℕ → Pcb) → ℕ → ℕ → ℕ → Pcb
set_next m p v = modify m p (λ b. record b { next = v })

-- What a change of one block leaves alone.
pub modify_keeps {ℓ} :
    {B : Type ℓ} (g : Pcb → B) (m : ℕ → Pcb) (p : ℕ) (f : Pcb → Pcb)
    → ((b : Pcb) → g (f b) ≡ g b)
    → (a : ℕ) → g (modify m p f a) ≡ g (m a)
modify_keeps g m p f keeps a = elim (Bool-cases (a == p)) [
  | inl e ↦ rw e (keeps (m a))
  | inr e ↦ rw e refl
]

-- What a change of one block makes of a field.
pub modify_field {ℓ} :
    {B : Type ℓ} (g : Pcb → B) (m : ℕ → Pcb) (p : ℕ) (f : Pcb → Pcb) (a : ℕ)
    → g (modify m p f a) ≡ (if a == p then g (f (m a)) else g (m a))
modify_field g m p f a = elim (Bool-cases (a == p)) [ inl e ↦ rw e refl | inr e ↦ rw e refl ]

pub set_next_lem :
    (m : ℕ → Pcb) (p v a : ℕ) → (set_next m p v a).next ≡ (if a == p then v else (m a).next)
set_next_lem m p v a = elim (Bool-cases (a == p)) [ inl e ↦ rw e refl | inr e ↦ rw e refl ]
