-- ===== src/Process/Scheduler/Again.antt =====
-- `schedule` gives the current process back to the ready queues although it has never left them. In
-- the steady state it is the last of its queue, and being linked in again changes nothing.
use munux.Common.{
  ℕ, ◌≤◌, ◌<◌, ◌≡◌, ◌≢◌, refl, ap, ◌∙◌, false, some, List, [], ◌∷◌, ◌++◌, ◌==◌, arith, length,
  if◌then◌else◌,
}
use mathlib.Core.Path.{subst}
use munux.Process.Pcb.{System, ready, default_quantum, modify, modify_field, modify_keeps, set_next}
use munux.Process.Links.{Seg, last}
use munux.Process.Scheduler.{queue_index, make_ready, enqueue, link_last, add_process}
use munux.Process.Scheduler.Queues.{
  links, linked, linked_next, linked_prio, IsQueue, IsQueue-frame, AreQueues, AreQueues-prepared,
  last_in_queue_lem, set_next_state, set_next_quantum,
}

pub last-append_one : (x c : ℕ) (xs : List ℕ) → last x (xs ++ c ∷ []) ≡ c
last-append_one x c [] = refl
last-append_one x c (y ∷ ys) = last-append_one y c ys

-- The last block of a circle leads to the first.
Seg-last : (nx : ℕ → ℕ) (xs : List ℕ) (x p q : ℕ) → Seg nx p (x ∷ xs) q → nx (last x xs) ≡ q
Seg-last nx [] x p q s = s.1
Seg-last nx (y ∷ ys) x p q s = Seg-last nx ys y (nx x) q s.1

-- What `scheduler_add_process` does to the last block of its own queue: no link changes.
pub record Kept (s t : System) : Type 0 where
  pub same_links : (a : ℕ) → links t a ≡ links s a
  pub same_queues : t.ready_queue ≡ s.ready_queue
  pub same_prio : (a : ℕ) → queue_index (t.pcbs a) ≡ queue_index (s.pcbs a)
  pub same_current : t.current ≡ s.current
  pub same_idle : t.idle ≡ s.idle

enqueue_again :
    (fuel i c head : ℕ) (xs : List ℕ) (s : System)
    → IsQueue s i (head ∷ xs)
    → last head xs ≡ c
    → length xs < fuel
    → (t : System) × (enqueue fuel i c s ≡ some t)
      × Kept s t
      × ((a : ℕ) → (t.pcbs a).state ≡ (s.pcbs a).state)
      × ((a : ℕ) → (t.pcbs a).quantum ≡ (s.pcbs a).quantum)
unfolding enqueue link_last
enqueue_again fuel i c head xs s q at l =
    let nonzero : (head == 0) ≡ false = ground (arith, q.belong head) in
    let walk = last_in_queue_lem xs head fuel s.pcbs head q.circle.1.1 q.distinct.0 l in
    let back : links s c ≡ head = rw at at (Seg-last (links s) xs head head head q.circle.1) in
    (
      record s { pcbs = linked s.pcbs c c head },
      rw (q.circle.0, nonzero, walk, at) refl,
      record {
        same_links = λ a. ground (arith, linked_next s.pcbs c c head a, back);
        same_queues = refl;
        same_prio = linked_prio s.pcbs c c head;
        same_current = refl;
        same_idle = refl;
      },
      λ a. set_next_state (set_next s.pcbs c c) c head a ∙ set_next_state s.pcbs c c a,
      λ a. set_next_quantum (set_next s.pcbs c c) c head a ∙ set_next_quantum s.pcbs c c a,
    )

-- The queues are the same, and so are the processes in them.
AreQueues-Kept : {s t : System} (qs : ℕ → List ℕ) → Kept s t → AreQueues s qs → AreQueues t qs
AreQueues-Kept {s} {t} qs k valid i l =
    IsQueue-frame s t i (qs i) (ap (λ f. f i) k.same_queues) (λ a h. k.same_links a) k.same_prio
      (valid i l)

-- `front` and `c` as a first block and the others.
split_last :
    (front : List ℕ) (c : ℕ)
    → (head : ℕ) × (xs : List ℕ) × (front ++ c ∷ [] ≡ head ∷ xs) × (last head xs ≡ c)
split_last [] c = (c, [], refl, refl)
split_last (x ∷ front) c = (x, front ++ c ∷ [], refl, last-append_one x c front)

-- Where the current process is the last of the queue of its priority, adding it makes it ready
-- with a full quantum, and leaves the queues and the other processes as they were.
pub add_process_again :
    (fuel c : ℕ) (s : System) (qs : ℕ → List ℕ) (front : List ℕ)
    → AreQueues s qs
    → c ≢ 0
    → qs (queue_index (s.pcbs c)) ≡ front ++ c ∷ []
    → length (qs (queue_index (s.pcbs c))) ≤ fuel
    → (t : System) × (add_process fuel c s ≡ some t)
      × AreQueues t qs
      × (t.current ≡ s.current)
      × ((a : ℕ) → queue_index (t.pcbs a) ≡ queue_index (s.pcbs a))
      × ((a : ℕ) → (t.pcbs a).state ≡ (if a == c then ready else (s.pcbs a).state))
      × ((a : ℕ) → (t.pcbs a).quantum ≡ (if a == c then default_quantum else (s.pcbs a).quantum))
unfolding add_process
add_process_again fuel c s qs front valid ne place l =
    let s' : System = record s { pcbs = modify s.pcbs c make_ready } in
    let i = queue_index (s.pcbs c) in
    let valid' = AreQueues-prepared s qs c valid in
    let (head, xs, e, at) = split_last front c in
    let q : IsQueue s' i (head ∷ xs) = subst (IsQueue s' i) (place ∙ e) (valid' i (ground arith)) in
    let fits : length xs < fuel = ground (arith, ap length (place ∙ e)) in
    let null : (c == 0) ≡ false = ground arith in
    let (t, ran, kept, states, quanta) = enqueue_again fuel i c head xs s' q at fits in
    (
      t,
      rw null ran,
      AreQueues-Kept qs kept valid',
      kept.same_current,
      λ a. kept.same_prio a ∙ modify_keeps queue_index s.pcbs c make_ready (λ b. refl) a,
      λ a. states a ∙ modify_field (λ b. b.state) s.pcbs c make_ready a,
      λ a. quanta a ∙ modify_field (λ b. b.quantum) s.pcbs c make_ready a,
    )
