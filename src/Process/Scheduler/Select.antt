-- ===== src/Process/Scheduler/Select.antt =====
-- `scheduler_add_process` and `select_next_process` on all four queues: the order of the turns.
use munux.Common.{
  ℕ, zero, suc, ◌≤◌, ◌<◌, ◌≡◌, ◌≢◌, refl, sym, ap, ◌∙◌, inl, inr, true, false, some, List, [], ◌∷◌,
  ◌++◌, ◌==◌, arith, length, Bool-cases,
}
use mathlib.Core.Path.{subst}
use mathlib.Core.List.{append-nil, append_assoc}
use munux.Common.Memory.{update, update_ne, update_self}
use munux.Process.Pcb.{System, ready, default_quantum, modify}
use munux.Process.Links.{has, Seg, Distinct-append_one, Seg-append_one, of_has-append_one}
use munux.Process.Scheduler.{
  queue_index, make_ready, add_process, select_below, select_next_process,
}
use munux.Process.Scheduler.Queues.{
  links, Belongs, Circle, IsQueue, IsQueue-frame, AreQueues, AreQueues-prepared, replace,
  enqueue_lem, IsQueue-of_replace, IsQueue-of_replace_ne, AreQueues-replace,
}

-- Where the four queues stand for the lists `qs`, `p` is not null and not in the queue of its
-- priority (any above 3 counts as 3), and the walk may take as many steps as that queue is long,
-- `scheduler_add_process` ends, the queues then stand for the same lists with `p` at the end of
-- that one, `p` is ready with a full quantum, and the current process is the same.
pub add_process_lem :
    (fuel p : ℕ) (s : System) (qs : ℕ → List ℕ)
    → AreQueues s qs
    → p ≢ 0
    → has p (qs (queue_index (s.pcbs p))) ≡ false
    → length (qs (queue_index (s.pcbs p))) ≤ fuel
    → (t : System) × (add_process fuel p s ≡ some t)
      × AreQueues t (replace qs (queue_index (s.pcbs p)) (qs (queue_index (s.pcbs p)) ++ p ∷ []))
      × ((t.pcbs p).state ≡ ready)
      × ((t.pcbs p).quantum ≡ default_quantum)
      × (t.current ≡ s.current)
unfolding add_process
add_process_lem fuel p s qs valid ne out l =
    let s' : System = record s { pcbs = modify s.pcbs p make_ready } in
    let i = queue_index (s.pcbs p) in
    let valid' = AreQueues-prepared s qs p valid in
    let self : (p == p) ≡ true = ground arith in
    let null : (p == 0) ≡ false = ground arith in
    let (t, e, done) =
      enqueue_lem (qs i) fuel i p s' (valid' i (ground arith)) out (ne, rw self refl) l in
    (
      t,
      rw null e,
      AreQueues-replace t qs i (qs i ++ p ∷ []) done.appended
          (λ j lj apart. done.others j (qs j) apart (valid' j lj)),
      done.same_state p ∙ rw self refl,
      done.same_quantum p ∙ rw self refl,
      done.same_current,
    )

-- The head moves on to the next block of the circle.
abbrev pub rotated : System → ℕ → ℕ → System
rotated s i x = record s { ready_queue = update s.ready_queue i (s.pcbs x).next }

select_below_lem :
    (n i x : ℕ) (xs : List ℕ) (s : System)
    → i < n
    → IsQueue s i (x ∷ xs)
    → ((j : ℕ) → i < j → j < n → s.ready_queue j ≡ 0)
    → select_below n s ≡ (x, rotated s i x)
unfolding select_below
select_below_lem zero i x xs s l q above = elim l [ ]
select_below_lem (suc n) i x xs s l q above = elim (Bool-cases (i == n)) [
  | inl here ↦
      let e : n ≡ i = ground arith in
      let nonzero : (x == 0) ≡ false = ground (arith, q.belong x) in
      rw (e, q.circle.0, nonzero) refl
  | inr later ↦
      rw (above n (ground arith) (omega arith))
        (select_below_lem n i x xs s (ground arith) q λ j a b. above j a (omega arith))
]

rotated-Circle :
    (nx : ℕ → ℕ) (x : ℕ) (xs : List ℕ) → Seg nx x (x ∷ xs) x → Circle nx (nx x) (xs ++ x ∷ [])
rotated-Circle nx x [] s = (s.1, (refl, s.1))
rotated-Circle nx x (y ∷ ys) s = (
  s.1.0,
  subst (λ q. Seg nx y (y ∷ ys ++ x ∷ []) q) s.1.0 (Seg-append_one nx (y ∷ ys) y x (refl, s.1.1)),
)

pub IsQueue-rotated :
    (s : System) (i x : ℕ) (xs : List ℕ)
    → IsQueue s i (x ∷ xs)
    → IsQueue (rotated s i x) i (xs ++ x ∷ [])
IsQueue-rotated s i x xs q = record {
  circle =
      rw (update_self s.ready_queue i (s.pcbs x).next) (rotated-Circle (links s) x xs q.circle.1);
  distinct = Distinct-append_one xs x q.distinct.1 q.distinct.0;
  belong =
      of_has-append_one (Belongs s i) xs x (λ a h. q.belong a (ground arith))
        (q.belong x (ground arith));
}

-- Where queue `i` stands for `x` and `xs`, and no queue of a higher priority has a process,
-- `select_next_process` takes `x` and moves it to the end of its queue, and nothing else changes.
pub select_next_process_lem :
    (s : System) (qs : ℕ → List ℕ) (i x : ℕ) (xs : List ℕ)
    → AreQueues s (replace qs i (x ∷ xs))
    → i < 4
    → ((j : ℕ) → i < j → j < 4 → qs j ≡ [])
    → (select_next_process s ≡ (x, rotated s i x))
      × AreQueues (rotated s i x) (replace qs i (xs ++ x ∷ []))
unfolding select_next_process
select_next_process_lem s qs i x xs valid l above =
    let q = IsQueue-of_replace s qs i (x ∷ xs) valid l in
    let other = IsQueue-of_replace_ne s qs i (x ∷ xs) valid in
    (
      select_below_lem 4 i x xs s l q λ j a b.
          let r : IsQueue s j [] = subst (IsQueue s j) (above j a b) (other j b (omega arith)) in
          r.circle,
      AreQueues-replace (rotated s i x) qs i (xs ++ x ∷ []) (IsQueue-rotated s i x xs q)
          λ j lj apart.
            IsQueue-frame s (rotated s i x) j (qs j)
              (update_ne s.ready_queue i (s.pcbs x).next j apart) (λ a h. refl) (λ a. refl)
              (other j lj apart),
    )

-- `select_next_process`, `n` times over.
abbrev pub turns : ℕ → System → List ℕ × System
turns zero s = ([], s)
turns (suc n) s = let (p, s') = select_next_process s in let (ps, t) = turns n s' in (p ∷ ps, t)

turns-suc :
    (n x : ℕ) (s t : System)
    → select_next_process s ≡ (x, t)
    → ((turns (suc n) s).0 ≡ x ∷ (turns n t).0) × ((turns (suc n) s).1 ≡ (turns n t).1)
turns-suc n x s t e = (ap (λ r. r.0 ∷ (turns n r.1).0) e, ap (λ r. (turns n r.1).1) e)

turns_from :
    (xs ys : List ℕ) (s : System) (qs : ℕ → List ℕ) (i : ℕ)
    → AreQueues s (replace qs i (xs ++ ys))
    → i < 4
    → ((j : ℕ) → i < j → j < 4 → qs j ≡ [])
    → ((turns (length xs) s).0 ≡ xs) × AreQueues (turns (length xs) s).1 (replace qs i (ys ++ xs))
turns_from [] ys s qs i valid l above =
    (refl, subst (λ zs. AreQueues s (replace qs i zs)) (sym (append-nil ys)) valid)
turns_from (x ∷ xs) ys s qs i valid l above =
    let (e, rest) = select_next_process_lem s qs i x (xs ++ ys) valid l above in
    let (chosen, after) =
      turns_from xs (ys ++ x ∷ []) (rotated s i x) qs i
        (subst (λ zs. AreQueues (rotated s i x) (replace qs i zs)) (append_assoc xs ys (x ∷ []))
          rest)
        l above in
    let (first, later) = turns-suc (length xs) x s (rotated s i x) e in
    (
      first ∙ ap (λ zs. x ∷ zs) chosen,
      subst (λ u. AreQueues u (replace qs i (ys ++ x ∷ xs))) (sym later)
          (subst (λ zs. AreQueues (turns (length xs) (rotated s i x)).1 (replace qs i zs))
            (append_assoc ys (x ∷ []) xs) after),
    )

-- Round robin: where queue `i` stands for `xs`, and no queue of a higher priority has a process,
-- as many choices as `xs` is long give each process of `xs` once, in the order of the queue, and
-- leave the four queues as they were.
pub turns_lem :
    (xs : List ℕ) (s : System) (qs : ℕ → List ℕ) (i : ℕ)
    → AreQueues s (replace qs i xs)
    → i < 4
    → ((j : ℕ) → i < j → j < 4 → qs j ≡ [])
    → ((turns (length xs) s).0 ≡ xs) × AreQueues (turns (length xs) s).1 (replace qs i xs)
turns_lem xs s qs i valid l above =
    turns_from xs [] s qs i
      (subst (λ zs. AreQueues s (replace qs i zs)) (sym (append-nil xs)) valid) l above
