-- ===== src/Process/Scheduler/Turns.antt =====
-- When the turn of a process comes.
use munux.Common.{
  ℕ, zero, suc, ◌+◌, ◌-◌, ◌*◌, ◌<◌, ◌≡◌, refl, ◌∙◌, inl, inr, true, false, some, List, [], ◌∷◌,
  ◌++◌, ◌==◌, ltb, arith, length, Bool-cases,
}
use mathlib.Core.List.{append_assoc}
use munux.Process.Pcb.{System}
use munux.Process.Scheduler.Queues.{replace}
use munux.Process.Scheduler.Rounds.{pick, pick_empty, pick_here}
use munux.Process.Scheduler.Robin.{
  Robin, tick, ticks, switches, Refines, Fits, run_ticks, run_ticks-ticks,
}

-- The highest queue that has a process.
pick_top :
    (n i x : ℕ) (xs : List ℕ) (qs : ℕ → List ℕ)
    → i < n
    → qs i ≡ x ∷ xs
    → ((j : ℕ) → i < j → j < n → qs j ≡ [])
    → pick n qs ≡ some (x, replace qs i (xs ++ x ∷ []))
pick_top zero i x xs qs l here above = elim l [ ]
pick_top (suc n) i x xs qs l here above = elim (Bool-cases (i == n)) [
  | inl e ↦ (let at : i ≡ n = ground arith in rw at (pick_here n x xs qs (rw at at here)))
  | inr e ↦
      pick_empty n qs (above n (ground arith) (omega arith))
      ∙ pick_top n i x xs qs (ground arith) here (λ j a b. above j a (omega arith))
]

-- The rest of a slice, and the turn behind it.
ticks-slice :
    (l x : ℕ) (qs : ℕ → List ℕ) (r : Robin)
    → r.left ≡ suc l
    → pick 4 r.queues ≡ some (x, qs)
    → ticks (suc l) r ≡ record { queues = qs; current = x; left = 50 }
unfolding tick
ticks-slice zero x qs r left picked = rw (left, picked) refl
ticks-slice (suc l) x qs r left picked =
    let more : ltb 1 r.left ≡ true = ground arith in
    rw more (ticks-slice l x qs (record r { left = r.left - 1 }) (omega arith) picked)

ticks-add : (a b : ℕ) (r : Robin) → ticks (a + b) r ≡ ticks b (ticks a r)
ticks-add zero b r = let e : 0 + b ≡ b = omega arith in rw e refl
ticks-add (suc a) b r =
    let e : suc a + b ≡ suc (a + b) = omega arith in rw e (ticks-add a b (tick r))

ticks-turn :
    (front : List ℕ) (x i l : ℕ) (rest : List ℕ) (r : Robin)
    → i < 4
    → r.left ≡ suc l
    → r.queues i ≡ front ++ x ∷ rest
    → ((j : ℕ) → i < j → j < 4 → r.queues j ≡ [])
    → (ticks (suc l + 50 * length front) r).current ≡ x
ticks-turn [] x i l rest r hi left place above =
    let e : suc l + 50 * 0 ≡ suc l = omega arith in
    let done = ticks-slice l x _ r left (pick_top 4 i x rest r.queues hi place above) in
    rw (e, done) refl
ticks-turn (y ∷ ys) x i l rest r hi left place above =
    let qs' = replace r.queues i ((ys ++ x ∷ rest) ++ y ∷ []) in
    let r' : Robin = record { queues = qs'; current = y; left = 50 } in
    let slice : ticks (suc l) r ≡ r' =
      ticks-slice l y qs' r left (pick_top 4 i y (ys ++ x ∷ rest) r.queues hi place above) in
    let split : suc l + 50 * suc (length ys) ≡ suc l + (50 + 50 * length ys) = omega arith in
    let self : (i == i) ≡ true = ground arith in
    let place' : qs' i ≡ ys ++ x ∷ (rest ++ y ∷ []) =
      rw self (append_assoc ys (x ∷ rest) (y ∷ [])) in
    rw (split, ticks-add (suc l) (50 + 50 * length ys) r, slice)
      (ticks-turn ys x i 49 (rest ++ y ∷ []) r' hi refl place'
        (λ j a b. let other : (j == i) ≡ false = ground arith in rw other (above j a b)))

-- From a state of the scheduler that refines `r` (its queues are circles of the lists of `r`, with the
-- current process, as after a switch, last in the queue of its priority), with fuel for the longest,
-- the process behind `front` in the highest queue that has one becomes the current one once what is
-- left of the running slice has passed, and a slice of 50 ticks for each process of `front`.
pub turn_comes :
    (fuel i l x : ℕ) (front rest : List ℕ) (s : System) (r : Robin)
    → Refines s r
    → Fits fuel r
    → i < 4
    → r.left ≡ suc l
    → r.queues i ≡ front ++ x ∷ rest
    → ((j : ℕ) → i < j → j < 4 → r.queues j ≡ [])
    → let n = suc l + 50 * length front in
      (t : System) × (run_ticks fuel n s ≡ some (t, switches n r)) × (t.current ≡ x)
turn_comes fuel i l x front rest s r v fits hi left place above =
    let n = suc l + 50 * length front in
    let (t, e, v') = run_ticks-ticks fuel n s r v fits in
    (t, e, v'.same_current ∙ ticks-turn front x i l rest r hi left place above)
