-- ===== src/Process/Scheduler/Rounds.antt =====
-- `schedule` in the steady state: the current process runs and is the last of the queue of its
-- priority.
use munux.Common.{
  ℕ, zero, suc, ◌≤◌, ◌<◌, ◌≡◌, ◌≢◌, refl, sym, ap, ◌∙◌, ◌⊎◌, inl, inr, true, false, Option, none,
  some, List, [], ◌∷◌, ◌++◌, ◌==◌, arith, length, Bool-cases, if◌then◌else◌,
}
use mathlib.Core.Path.{subst, subst⁻¹}
use munux.Common.Memory.{update_ne}
use munux.Process.Pcb.{
  Pcb, System, ready, running, is_running, default_quantum, modify, modify_keeps,
}
use munux.Process.Scheduler.{
  queue_index, select_below, select_next_process, dispatch, add_process, schedule,
}
use munux.Process.Scheduler.Queues.{IsQueue, IsQueue-frame, AreQueues, replace, AreQueues-replace}
use munux.Process.Scheduler.Select.{rotated, IsQueue-rotated}
use munux.Process.Scheduler.Again.{add_process_again}

abbrev turn_or : Option (ℕ × (ℕ → List ℕ)) → ℕ → (ℕ → List ℕ) → List ℕ → Option (ℕ × (ℕ → List ℕ))
turn_or lower j qs [] = lower
turn_or lower j qs (x ∷ xs) = some (x, replace qs j (xs ++ x ∷ []))

-- The next process on lists: the first of the highest queue that has one; it goes to the end.
unfoldable pub pick : ℕ → (ℕ → List ℕ) → Option (ℕ × (ℕ → List ℕ))
pick zero qs = none
pick (suc j) qs = turn_or (pick j qs) j qs (qs j)

pub pick_empty : (n : ℕ) (qs : ℕ → List ℕ) → qs n ≡ [] → pick (suc n) qs ≡ pick n qs
unfolding pick
pick_empty n qs e = ap (turn_or (pick n qs) n qs) e

pub pick_here :
    (n x : ℕ) (xs : List ℕ) (qs : ℕ → List ℕ)
    → qs n ≡ x ∷ xs
    → pick (suc n) qs ≡ some (x, replace qs n (xs ++ x ∷ []))
unfolding pick
pick_here n x xs qs e = ap (turn_or (pick n qs) n qs) e

AreQueues-rotated :
    (s : System) (qs : ℕ → List ℕ) (j x : ℕ) (xs : List ℕ)
    → AreQueues s qs
    → qs j ≡ x ∷ xs
    → j < 4
    → AreQueues (rotated s j x) (replace qs j (xs ++ x ∷ []))
AreQueues-rotated s qs j x xs valid here l =
    AreQueues-replace (rotated s j x) qs j (xs ++ x ∷ [])
      (IsQueue-rotated s j x xs (subst (IsQueue s j) here (valid j l)))
      (λ k lk apart.
        IsQueue-frame s (rotated s j x) k (qs k) (update_ne s.ready_queue j (s.pcbs x).next k apart)
          (λ a h. refl) (λ a. refl) (valid k lk))

-- What `select_next_process` does, against `pick`.
abbrev Picks : ℕ → System → (ℕ → List ℕ) → Option (ℕ × (ℕ → List ℕ)) → Type 0
Picks n s qs none = (j : ℕ) → j < n → qs j ≡ []
Picks n s qs (some (x, qs')) =
    (j : ℕ) × (select_below n s ≡ (x, rotated s j x))
    × AreQueues (rotated s j x) qs'
    × (x ≢ 0)
    × (front : List ℕ) × (qs' (queue_index (s.pcbs x)) ≡ front ++ x ∷ [])

pub list_cases : (xs : List ℕ) → (xs ≡ []) ⊎ ((y : ℕ) × (ys : List ℕ) × (xs ≡ y ∷ ys))
list_cases [] = inl refl
list_cases (y ∷ ys) = inr (y, ys, refl)

-- An empty queue is passed over.
Picks-suc :
    (n : ℕ) (s : System) (qs : ℕ → List ℕ) (o : Option (ℕ × (ℕ → List ℕ)))
    → qs n ≡ []
    → s.ready_queue n ≡ 0
    → Picks n s qs o
    → Picks (suc n) s qs o
unfolding select_below
Picks-suc n s qs none none_here null h = λ j l. elim (Bool-cases (j == n)) [
  | inl e ↦ (let at : j ≡ n = ground arith in rw at none_here)
  | inr e ↦ h j (ground arith)
]
Picks-suc n s qs (some (x, qs')) none_here null (j, chosen, h1, h2, front, h3) =
    (j, rw null chosen, h1, h2, front, h3)

select_below_pick :
    (n : ℕ) (s : System) (qs : ℕ → List ℕ) → n ≤ 4 → AreQueues s qs → Picks n s qs (pick n qs)
unfolding select_below
select_below_pick zero s qs l valid = unfold pick in λ j h. absurd (omega arith)
select_below_pick (suc n) s qs l valid = elim (list_cases (qs n)) [
  | inl empty ↦
      let q : IsQueue s n [] = subst (IsQueue s n) empty (valid n (omega arith)) in
      subst⁻¹ (Picks (suc n) s qs) (pick_empty n qs empty)
        (Picks-suc n s qs (pick n qs) empty q.circle (select_below_pick n s qs (omega arith) valid))
  | inr (x, xs, here) ↦
      let q : IsQueue s n (x ∷ xs) = subst (IsQueue s n) here (valid n (omega arith)) in
      let (ne, prio) = q.belong x (ground arith) in
      let nonzero : (x == 0) ≡ false = ground arith in
      let self : (n == n) ≡ true = ground arith in
      subst⁻¹ (Picks (suc n) s qs) (pick_here n x xs qs here) (
        n,
        rw (q.circle.0, nonzero) refl,
        AreQueues-rotated s qs n x xs valid here (omega arith),
        ne,
        xs,
        rw (prio, self) refl,
      )
]

-- The current process is the last of its queue, and runs, or is ready where it was alone.
pub record Steady (s : System) (qs : ℕ → List ℕ) : Type 0 where
  pub queues : AreQueues s qs
  pub current_ne : s.current ≢ 0
  pub front : List ℕ
  pub place : qs (queue_index (s.pcbs s.current)) ≡ front ++ s.current ∷ []
  pub active : ((s.pcbs s.current).state ≡ running) ⊎ ((s.pcbs s.current).state ≡ ready)

-- What `schedule` starts from once the current process is back in the queues.
abbrev Prepared : System → (ℕ → List ℕ) → System → Type 0
Prepared s qs t =
    AreQueues t qs
    × (t.current ≡ s.current)
    × ((a : ℕ) → queue_index (t.pcbs a) ≡ queue_index (s.pcbs a))
    × ((t.pcbs s.current).state ≡ ready)

prepare :
    (fuel : ℕ) (s : System) (qs : ℕ → List ℕ)
    → Steady s qs
    → length (qs (queue_index (s.pcbs s.current))) ≤ fuel
    → (t : System) × ((if is_running (s.pcbs s.current).state
          then add_process fuel s.current s
          else some s)
        ≡ some t)
      × Prepared s qs t
prepare fuel s qs v l = elim v.active [
  | inl runs ↦
      let (t, e, queues, cur, prio, states, _) =
        add_process_again fuel s.current s qs v.front v.queues v.current_ne v.place l in
      (t, rw runs e, (queues, cur, prio, ground (arith, states s.current)))
  | inr waits ↦ (s, rw waits refl, (v.queues, refl, λ a. refl, waits))
]

append_one_ne : (xs : List ℕ) (c : ℕ) → xs ++ c ∷ [] ≢ []
append_one_ne [] c e = cc
append_one_ne (x ∷ xs) c e = cc

-- The end of `schedule`.
abbrev pub Dispatched : ℕ → ℕ → (ℕ → List ℕ) → System × Option (ℕ × ℕ) → Type 0
Dispatched c x qs r =
    Steady r.0 qs
    × (r.0.current ≡ x)
    × ((r.0.pcbs x).quantum ≡ default_quantum)
    × (r.1 ≡ (if x == c then none else some (c, x)))

-- A change that keeps the link and the priority of each block keeps the queues.
pub AreQueues-modify :
    (s : System) (qs : ℕ → List ℕ) (c p : ℕ) (f : Pcb → Pcb)
    → ((b : Pcb) → (f b).next ≡ b.next)
    → ((b : Pcb) → queue_index (f b) ≡ queue_index b)
    → AreQueues s qs
    → AreQueues (record s { current = c; pcbs = modify s.pcbs p f }) qs
AreQueues-modify s qs c p f keeps_next keeps_prio valid i l =
    IsQueue-frame s (record s { current = c; pcbs = modify s.pcbs p f }) i (qs i) refl
      (λ a h. modify_keeps (λ b. b.next) s.pcbs p f keeps_next a)
      (modify_keeps queue_index s.pcbs p f keeps_prio) (valid i l)

dispatch_lem :
    (s t : System) (qs qs' : ℕ → List ℕ) (j x : ℕ) (front : List ℕ)
    → s.current ≢ 0
    → Prepared s qs t
    → AreQueues (rotated t j x) qs'
    → x ≢ 0
    → qs' (queue_index (t.pcbs x)) ≡ front ++ x ∷ []
    → Dispatched s.current x qs' (dispatch (x, rotated t j x))
unfolding dispatch
dispatch_lem s t qs qs' j x front ne (queues, cur, prio, waits) valid nonzero place =
    let null : (x == 0) ≡ false = ground arith in
    elim (Bool-cases (x == s.current)) [
      | inl same ↦
          let f : Pcb → Pcb = λ b. record b { quantum = default_quantum } in
          let e : s.current ≡ x = ground arith in
          let at : t.current ≡ x = cur ∙ e in
          let self : (x == x) ≡ true = ground arith in
          rw (e, null, at, self)
            (
              record {
                queues = AreQueues-modify (rotated t j x) qs' x x f (λ b. refl) (λ b. refl) valid;
                current_ne = nonzero;
                front = front;
                place = rw self place;
                active = inr (rw self (rw e at waits));
              },
              refl,
              rw self refl,
              refl,
            )
      | inr other ↦
          let f : Pcb → Pcb = λ b. record b { state = running; quantum = default_quantum } in
          let self : (x == x) ≡ true = ground arith in
          rw (null, cur, other)
            (
              record {
                queues = AreQueues-modify (rotated t j x) qs' x x f (λ b. refl) (λ b. refl) valid;
                current_ne = nonzero;
                front = front;
                place = rw self place;
                active = inl (rw self refl);
              },
              refl,
              rw self refl,
              refl,
            )
    ]

-- In the steady state there is a process to pick: the current one at least.
after_pick :
    (s t : System) (qs : ℕ → List ℕ) (o : Option (ℕ × (ℕ → List ℕ)))
    → Steady s qs
    → Prepared s qs t
    → Picks 4 t qs o
    → (x : ℕ) × (qs' : ℕ → List ℕ) × (o ≡ some (x, qs'))
      × Dispatched s.current x qs' (dispatch (select_next_process t))
unfolding select_next_process
after_pick s t qs none v p empty =
    let i = queue_index (s.pcbs s.current) in
    absurd (append_one_ne v.front s.current (sym v.place ∙ empty i (ground arith)))
after_pick s t qs (some (x, qs')) v p (j, chosen, valid, nonzero, front, place) =
    (x, qs', refl, rw chosen (dispatch_lem s t qs qs' j x front v.current_ne p valid nonzero place))

-- From a steady state, where the walk along a queue may take as many steps as the current
-- process's is long, `schedule` ends: it takes the first process of the highest queue that has
-- one, which goes to the end of its queue and gets a full quantum, and the state is steady again;
-- it switches from the current process to that one, or not at all if they are the same.
pub schedule_lem :
    (fuel : ℕ) (s : System) (qs : ℕ → List ℕ)
    → Steady s qs
    → length (qs (queue_index (s.pcbs s.current))) ≤ fuel
    → (x : ℕ) × (qs' : ℕ → List ℕ) × (r : System × Option (ℕ × ℕ)) × (pick 4 qs ≡ some (x, qs'))
      × (schedule fuel s ≡ some r)
      × Dispatched s.current x qs' r
unfolding schedule
schedule_lem fuel s qs v l =
    let (t, e, p) = prepare fuel s qs v l in
    let (x, qs', picked, done) =
      after_pick s t qs (pick 4 qs) v p (select_below_pick 4 t qs (omega arith) p.0) in
    let null : (s.current == 0) ≡ false = ground (arith, v.current_ne) in
    (x, qs', dispatch (select_next_process t), picked, rw (null, e) refl, done)
