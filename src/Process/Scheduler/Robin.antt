-- ===== src/Process/Scheduler/Robin.antt =====
-- The scheduler as a specification on lists: the processes of each priority in the order of their
-- turns, the current one, and the ticks that it has left. `scheduler_tick` refines it.
use munux.Common.{
  ◌>>=◌, ℕ, zero, suc, ◌-◌, ◌≤◌, ◌≡◌, refl, ap, ◌∙◌, inl, inr, true, false, Option, none, some,
  List, [], ◌∷◌, ◌==◌, ltb, arith, length, length-append, Bool-cases, if◌then◌else◌,
}
use mathlib.Core.Path.{subst⁻¹}
use munux.Process.Pcb.{Pcb, System, default_quantum, modify, modify_field, modify_keeps}
use munux.Process.Scheduler.{queue_index, count_tick, scheduler_tick}
use munux.Process.Scheduler.Rounds.{
  pick, list_cases, pick_empty, pick_here, Steady, AreQueues-modify, schedule_lem,
}

pub record Robin : Type 0 where
  pub queues : ℕ → List ℕ
  pub current : ℕ
  pub left : ℕ

-- The next process gets the processor, with a full quantum.
abbrev pub take_turn : Robin → Option (ℕ × (ℕ → List ℕ)) → Robin
take_turn r none = r
take_turn r (some (x, qs)) = record { queues = qs; current = x; left = default_quantum }

-- One tick: the current process has one less left, and with none left another takes its turn.
unfoldable pub tick : Robin → Robin
tick r = if ltb 1 r.left then record r { left = r.left - 1 } else take_turn r (pick 4 r.queues)

-- The switch that goes with a step of the specification.
abbrev pub switch_of : Robin → Robin → Option (ℕ × ℕ)
switch_of r r' = if r'.current == r.current then none else some (r.current, r'.current)

pub record Refines (s : System) (r : Robin) : Type 0 where
  pub steady : Steady s r.queues
  pub same_current : s.current ≡ r.current
  pub same_left : (s.pcbs s.current).quantum ≡ r.left

-- No queue is longer than the fuel.
abbrev pub Fits : ℕ → Robin → Type 0
Fits fuel r = (i : ℕ) → length (r.queues i) ≤ fuel

-- What `count_tick` leaves of a block.
count_tick_keeps {ℓ} :
    {B : Type ℓ} (g : Pcb → B)
    → ((b : Pcb) (q n : ℕ) → g (record b { quantum = q; total_time = n }) ≡ g b)
    → (b : Pcb) → g (count_tick b) ≡ g b
count_tick_keeps g keeps b = elim (Bool-cases (b.quantum == 0)) [
  | inl e ↦ rw e refl
  | inr e ↦ rw e (keeps b _ _)
]

count_tick_quantum : (b : Pcb) → (count_tick b).quantum ≡ b.quantum - 1
count_tick_quantum b = elim (Bool-cases (b.quantum == 0)) [
  | inl e ↦ rw e (ground arith)
  | inr e ↦ rw e refl
]

ticked : System → System
ticked s = record s { pcbs = modify s.pcbs s.current count_tick }

ticked_lem :
    (s : System) (qs : ℕ → List ℕ)
    → Steady s qs
    → Steady (ticked s) qs × (((ticked s).pcbs s.current).quantum ≡ (s.pcbs s.current).quantum - 1)
unfolding ticked
ticked_lem s qs v =
    let self : (s.current == s.current) ≡ true = ground arith in
    let keep = λ (a : ℕ).
      modify_keeps queue_index s.pcbs s.current count_tick
        (count_tick_keeps queue_index (λ b q n. refl)) a in
    let state =
      modify_keeps (λ b. b.state) s.pcbs s.current count_tick
        (count_tick_keeps (λ b. b.state) (λ b q n. refl)) s.current in
    (
      record {
        queues =
            AreQueues-modify s qs s.current s.current count_tick
              (count_tick_keeps (λ b. b.next) (λ b q n. refl))
              (count_tick_keeps queue_index (λ b q n. refl)) v.queues;
        current_ne = v.current_ne;
        front = v.front;
        place = ap qs (keep s.current) ∙ v.place;
        active = elim v.active [ inl e ↦ inl (state ∙ e) | inr e ↦ inr (state ∙ e) ];
      },
      modify_field (λ b. b.quantum) s.pcbs s.current count_tick s.current
          ∙ rw self (count_tick_quantum (s.pcbs s.current)),
    )

-- A tick of the code is a tick of the specification.
pub scheduler_tick-tick :
    (fuel : ℕ) (s : System) (r : Robin)
    → Refines s r
    → Fits fuel r
    → (t : System) × (scheduler_tick fuel s ≡ some (t, switch_of r (tick r))) × Refines t (tick r)
unfolding scheduler_tick tick ticked
scheduler_tick-tick fuel s r v fits =
    let null : (s.current == 0) ≡ false = ground (arith, v.steady.current_ne) in
    let self : (r.current == r.current) ≡ true = ground arith in
    let (steady, less) = ticked_lem s r.queues v.steady in
    elim (Bool-cases (ltb 1 r.left)) [
      | inl more ↦
          let left : (((ticked s).pcbs s.current).quantum == 0) ≡ false =
            ground (arith, less, v.same_left) in
          (
            ticked s,
            rw (null, left, more, self) refl,
            rw more (record {
              steady = steady;
              same_current = v.same_current;
              same_left = less ∙ ground (arith, v.same_left);
            }),
          )
      | inr last_tick ↦
          let left : (((ticked s).pcbs s.current).quantum == 0) ≡ true =
            ground (arith, less, v.same_left) in
          let (x, qs', rr, picked, e, (again, at, full, switch)) =
            schedule_lem fuel (ticked s) r.queues steady (fits _) in
          let switch' : rr.1 ≡ (if x == r.current then none else some (r.current, x)) =
            rw v.same_current at switch in
          (
            rr.0,
            rw (null, left, last_tick, picked, e) (ap some (λ i. (rr.0, switch' i))),
            rw (last_tick, picked)
                (record { steady = again; same_current = at; same_left = rw at full }),
          )
    ]

-- `n` ticks of the specification, and of the code, with the switches.
abbrev pub ticks : ℕ → Robin → Robin
ticks zero r = r
ticks (suc n) r = ticks n (tick r)

abbrev pub switches : ℕ → Robin → List (Option (ℕ × ℕ))
switches zero r = []
switches (suc n) r = switch_of r (tick r) ∷ switches n (tick r)

pub run_ticks : (fuel n : ℕ) → System → Option (System × List (Option (ℕ × ℕ)))
run_ticks fuel zero s = some (s, [])
run_ticks fuel (suc n) s =
    scheduler_tick fuel s >>= λ r. run_ticks fuel n r.0 >>= λ later. some (later.0, r.1 ∷ later.1)

abbrev SameLengths : (ℕ → List ℕ) → Option (ℕ × (ℕ → List ℕ)) → Type 0
SameLengths qs none = Unit
SameLengths qs (some (x, qs')) = (i : ℕ) → length (qs' i) ≡ length (qs i)

SameLengths-pick : (n : ℕ) (qs : ℕ → List ℕ) → SameLengths qs (pick n qs)
unfolding pick
SameLengths-pick zero qs = tt
SameLengths-pick (suc n) qs = elim (list_cases (qs n)) [
  | inl empty ↦ subst⁻¹ (SameLengths qs) (pick_empty n qs empty) (SameLengths-pick n qs)
  | inr (x, xs, here) ↦ subst⁻¹ (SameLengths qs) (pick_here n x xs qs here) (λ i.
      elim (Bool-cases (i == n)) [
        | inl e ↦
            let at : i ≡ n = ground arith in
            rw (e, at, here) (omega (arith, length-append xs (x ∷ [])))
        | inr e ↦ rw e refl
      ])
]

take_turn-Fits :
    (fuel : ℕ) (r : Robin) (o : Option (ℕ × (ℕ → List ℕ)))
    → SameLengths r.queues o
    → Fits fuel r
    → Fits fuel (take_turn r o)
take_turn-Fits fuel r none same fits = fits
take_turn-Fits fuel r (some (x, qs)) same fits = λ i. omega (arith, same i, fits i)

tick-Fits : (fuel : ℕ) (r : Robin) → Fits fuel r → Fits fuel (tick r)
unfolding tick
tick-Fits fuel r fits = elim (Bool-cases (ltb 1 r.left)) [
  | inl more ↦ rw more fits
  | inr last_tick ↦
      rw last_tick (take_turn-Fits fuel r (pick 4 r.queues) (SameLengths-pick 4 r.queues) fits)
]

-- Every run of ticks of the code, from a state that refines the specification and with fuel for
-- the longest queue, is the run of the specification, with the same switches.
pub run_ticks-ticks :
    (fuel n : ℕ) (s : System) (r : Robin)
    → Refines s r
    → Fits fuel r
    → (t : System) × (run_ticks fuel n s ≡ some (t, switches n r)) × Refines t (ticks n r)
unfolding run_ticks
run_ticks-ticks fuel zero s r v fits = (s, refl, v)
run_ticks-ticks fuel (suc n) s r v fits =
    let (t, e, v') = scheduler_tick-tick fuel s r v fits in
    let (u, e', v'') = run_ticks-ticks fuel n t (tick r) v' (tick-Fits fuel r fits) in
    (u, rw (e, e') refl, v'')
