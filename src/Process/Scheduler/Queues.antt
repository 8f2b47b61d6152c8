-- ===== src/Process/Scheduler/Queues.antt =====
-- `scheduler_add_process` on ready queues that stand for lists.
use munux.Common.{
  ℕ, zero, suc, ◌≤◌, ◌<◌, ◌≡◌, ◌≢◌, refl, sym, ap, ◌∙◌, inl, inr, true, false, some, List, [], ◌∷◌,
  ◌++◌, ◌==◌, if◌then◌else◌, arith, length, Bool-cases,
}
use mathlib.Core.Path.{subst}
use munux.Common.Memory.{update}
use munux.Process.Pcb.{Pcb, System, modify, set_next, modify_keeps, set_next_lem}
use munux.Process.Scheduler.{
  queue_index, last_in_queue, link_last, enqueue, make_ready, add_process,
}
use munux.Process.Links.{
  has, Distinct, Seg, last, has-last, Distinct-append_one, Seg-frame, Seg-link_last,
  of_has-append_one,
}

abbrev pub links : System → ℕ → ℕ
links s a = (s.pcbs a).next

abbrev pub Circle : (ℕ → ℕ) → ℕ → List ℕ → Type 0
Circle nx head [] = head ≡ 0
Circle nx head (x ∷ xs) = (head ≡ x) × Seg nx x (x ∷ xs) x

abbrev pub Belongs : System → ℕ → ℕ → Type 0
Belongs s i a = (a ≢ 0) × (queue_index (s.pcbs a) ≡ i)

-- Queue `i` is the circle of the blocks `xs`, all different, not null and of that priority.
pub record IsQueue (s : System) (i : ℕ) (xs : List ℕ) : Type 0 where
  pub circle : Circle (links s) (s.ready_queue i) xs
  pub distinct : Distinct xs
  pub belong : (a : ℕ) → has a xs ≡ true → Belongs s i a

-- The four queues stand for the lists `qs`.
abbrev pub AreQueues : System → (ℕ → List ℕ) → Type 0
AreQueues s qs = (i : ℕ) → i < 4 → IsQueue s i (qs i)

abbrev pub replace : (ℕ → List ℕ) → ℕ → List ℕ → ℕ → List ℕ
replace qs i xs j = if j == i then xs else qs j

module _ (s : System) (qs : ℕ → List ℕ) (i : ℕ) (l : List ℕ) where
  pub IsQueue-of_replace : AreQueues s (replace qs i l) → i < 4 → IsQueue s i l
  IsQueue-of_replace valid h =
      let same : replace qs i l i ≡ l = ground arith in subst (IsQueue s i) same (valid i h)

  pub IsQueue-of_replace_ne :
      AreQueues s (replace qs i l) → (j : ℕ) → j < 4 → j ≢ i → IsQueue s j (qs j)
  IsQueue-of_replace_ne valid j h ne =
      let same : replace qs i l j ≡ qs j = ground arith in subst (IsQueue s j) same (valid j h)

  pub AreQueues-replace :
      IsQueue s i l → ((j : ℕ) → j < 4 → j ≢ i → IsQueue s j (qs j)) → AreQueues s (replace qs i l)
  AreQueues-replace here others j h = elim (Bool-cases (j == i)) [
    | inl e ↦ (let at : j ≡ i = ground arith in rw e (rw at here))
    | inr ne ↦ rw ne (others j h (ground arith))
  ]

-- The walk of `scheduler_add_process` ends at the last block within as many steps as there are.
pub last_in_queue_lem :
    (xs : List ℕ) (x fuel : ℕ) (m : ℕ → Pcb) (head : ℕ)
    → Seg (λ a. (m a).next) (m x).next xs head
    → has head xs ≡ false
    → length xs < fuel
    → last_in_queue fuel m head x ≡ some (last x xs)
unfolding last_in_queue
last_in_queue_lem xs x zero m head s h l = elim l [ ]
last_in_queue_lem [] x (suc n) m head s h l = ground (arith, s)
last_in_queue_lem (y ∷ ys) x (suc n) m head s h l =
    ground (arith, s.0, last_in_queue_lem ys y n m head s.1 (ground arith) (omega arith))

Circle-frame :
    (nx ny : ℕ → ℕ) (head : ℕ) (xs : List ℕ)
    → ((a : ℕ) → has a xs ≡ true → ny a ≡ nx a)
    → Circle nx head xs
    → Circle ny head xs
Circle-frame nx ny head [] same c = c
Circle-frame nx ny head (x ∷ xs) same c = (c.0, Seg-frame nx ny (x ∷ xs) x x same c.1)

-- A queue whose blocks keep links and priorities is the same queue.
pub IsQueue-frame :
    (s t : System) (i : ℕ) (xs : List ℕ)
    → t.ready_queue i ≡ s.ready_queue i
    → ((a : ℕ) → has a xs ≡ true → links t a ≡ links s a)
    → ((a : ℕ) → queue_index (t.pcbs a) ≡ queue_index (s.pcbs a))
    → IsQueue s i xs
    → IsQueue t i xs
IsQueue-frame s t i xs head same prio q = record {
  circle = rw head (Circle-frame (links s) (links t) (s.ready_queue i) xs same q.circle);
  distinct = q.distinct;
  belong = λ a h. ((q.belong a h).0, prio a ∙ (q.belong a h).1);
}

module _ (s : System) (qs : ℕ → List ℕ) (p : ℕ) where
  abbrev prepared : System
  prepared = record s { pcbs = modify s.pcbs p make_ready }

  pub AreQueues-prepared : AreQueues s qs → AreQueues prepared qs
  AreQueues-prepared valid i l =
      IsQueue-frame s prepared i (qs i) refl
        (λ a h. modify_keeps (λ b. b.next) s.pcbs p make_ready (λ b. refl) a)
        (modify_keeps queue_index s.pcbs p make_ready (λ b. refl)) (valid i l)

-- The links once `p` stands behind `z`, and the priorities, which stay.
module _ (m : ℕ → Pcb) (z p head : ℕ) where
  abbrev pub linked : ℕ → Pcb
  linked = set_next (set_next m z p) p head

  pub linked_next :
      (a : ℕ) → (linked a).next ≡ (if a == p then head else if a == z then p else (m a).next)
  linked_next a = ground (arith, set_next_lem (set_next m z p) p head a, set_next_lem m z p a)

  pub linked_prio : (a : ℕ) → queue_index (linked a) ≡ queue_index (m a)
  linked_prio a =
      modify_keeps queue_index (set_next m z p) p (λ b. record b { next = head }) (λ b. refl) a
      ∙ modify_keeps queue_index m z (λ b. record b { next = p }) (λ b. refl) a

-- A block put behind the last one of a queue that has blocks.
IsQueue-link_last :
    (s : System) (i p head : ℕ) (xs : List ℕ)
    → IsQueue s i (head ∷ xs)
    → has p (head ∷ xs) ≡ false
    → Belongs s i p
    → IsQueue (record s { pcbs = linked s.pcbs (last head xs) p head }) i (head ∷ xs ++ p ∷ [])
IsQueue-link_last s i p head xs q out b =
    let m = linked s.pcbs (last head xs) p head in
    record {
      circle = (
        q.circle.0,
        Seg-link_last (links s) (λ a. (m a).next) xs head p head q.distinct out q.circle.1
            (linked_next s.pcbs (last head xs) p head),
      );
      distinct = Distinct-append_one (head ∷ xs) p q.distinct out;
      belong = λ a h.
          let b' = of_has-append_one (Belongs s i) (head ∷ xs) p q.belong b a h in
          (b'.0, linked_prio s.pcbs (last head xs) p head a ∙ b'.1);
    }

IsQueue-link_other :
    (s : System) (i p head : ℕ) (xs : List ℕ)
    → IsQueue s i (head ∷ xs)
    → Belongs s i p
    → (j : ℕ) (ys : List ℕ) → j ≢ i
    → IsQueue s j ys
    → IsQueue (record s { pcbs = linked s.pcbs (last head xs) p head }) j ys
IsQueue-link_other s i p head xs q b j ys ne r =
    IsQueue-frame s (record s { pcbs = linked s.pcbs (last head xs) p head }) j ys refl
      (λ a h.
        let apart : a ≢ p =
          λ e. ne (sym (r.belong a h).1 ∙ ap (λ c. queue_index (s.pcbs c)) e ∙ b.1) in
        let apart' : a ≢ last head xs = λ e. ne (
          sym (r.belong a h).1
          ∙ ap (λ c. queue_index (s.pcbs c)) e
          ∙ (q.belong (last head xs) (has-last head xs)).1) in
        ground (arith, linked_next s.pcbs (last head xs) p head a))
      (linked_prio s.pcbs (last head xs) p head) r

-- What `scheduler_add_process` makes of the queues: `p` is the last of queue `i`, the other
-- queues are as they were, and so are the current process and the idle one.
pub record Appended (i p : ℕ) (xs : List ℕ) (s t : System) : Type 0 where
  pub appended : IsQueue t i (xs ++ p ∷ [])
  pub others : (j : ℕ) (ys : List ℕ) → j ≢ i → IsQueue s j ys → IsQueue t j ys
  pub same_current : t.current ≡ s.current
  pub same_idle : t.idle ≡ s.idle
  pub same_state : (a : ℕ) → (t.pcbs a).state ≡ (s.pcbs a).state
  pub same_quantum : (a : ℕ) → (t.pcbs a).quantum ≡ (s.pcbs a).quantum

pub set_next_state : (m : ℕ → Pcb) (p v a : ℕ) → (set_next m p v a).state ≡ (m a).state
set_next_state m p v a = modify_keeps (λ b. b.state) m p (λ b. record b { next = v }) (λ b. refl) a

pub set_next_quantum : (m : ℕ → Pcb) (p v a : ℕ) → (set_next m p v a).quantum ≡ (m a).quantum
set_next_quantum m p v a =
    modify_keeps (λ b. b.quantum) m p (λ b. record b { next = v }) (λ b. refl) a

pub set_next_prio : (m : ℕ → Pcb) (p v a : ℕ) → queue_index (set_next m p v a) ≡ queue_index (m a)
set_next_prio m p v a = modify_keeps queue_index m p (λ b. record b { next = v }) (λ b. refl) a

-- The first block of a queue.
enqueue_first :
    (s : System) (i p : ℕ)
    → Belongs s i p
    → Appended i p [] s
        (record s { pcbs = set_next s.pcbs p p; ready_queue = update s.ready_queue i p })
enqueue_first s i p b =
    let t : System = record s {
      pcbs = set_next s.pcbs p p;
      ready_queue = update s.ready_queue i p;
    } in
    record {
      appended = record {
        circle = (ground arith, (refl, ground (arith, set_next_lem s.pcbs p p p)));
        distinct = (refl, tt);
        belong = λ a h.
            let e : a ≡ p = ground arith in (rw e b.0, set_next_prio s.pcbs p p a ∙ rw e b.1);
      };
      others = λ j ys ne r.
          IsQueue-frame s t j ys (ground arith)
            (λ a h.
              let apart : a ≢ p =
                λ e. ne (sym (r.belong a h).1 ∙ ap (λ c. queue_index (s.pcbs c)) e ∙ b.1) in
              ground (arith, set_next_lem s.pcbs p p a))
            (set_next_prio s.pcbs p p) r;
      same_current = refl;
      same_idle = refl;
      same_state = set_next_state s.pcbs p p;
      same_quantum = set_next_quantum s.pcbs p p;
    }

enqueue_more :
    (s : System) (i p head : ℕ) (xs : List ℕ)
    → IsQueue s i (head ∷ xs)
    → has p (head ∷ xs) ≡ false
    → Belongs s i p
    → Appended i p (head ∷ xs) s (record s { pcbs = linked s.pcbs (last head xs) p head })
enqueue_more s i p head xs q out b = record {
  appended = IsQueue-link_last s i p head xs q out b;
  others = IsQueue-link_other s i p head xs q b;
  same_current = refl;
  same_idle = refl;
  same_state = λ a.
      set_next_state (set_next s.pcbs (last head xs) p) p head a
      ∙ set_next_state s.pcbs (last head xs) p a;
  same_quantum = λ a.
      set_next_quantum (set_next s.pcbs (last head xs) p) p head a
      ∙ set_next_quantum s.pcbs (last head xs) p a;
}

pub enqueue_lem :
    (xs : List ℕ) (fuel i p : ℕ) (s : System)
    → IsQueue s i xs
    → has p xs ≡ false
    → Belongs s i p
    → length xs ≤ fuel
    → (t : System) × (enqueue fuel i p s ≡ some t) × Appended i p xs s t
unfolding enqueue link_last
enqueue_lem [] fuel i p s q out b l = (_, rw q.circle refl, enqueue_first s i p b)
enqueue_lem (head ∷ xs) fuel i p s q out b l =
    let nonzero : (head == 0) ≡ false = ground (arith, q.belong head) in
    let walk : last_in_queue fuel s.pcbs head head ≡ some (last head xs) =
      last_in_queue_lem xs head fuel s.pcbs head q.circle.1.1 q.distinct.0 (omega arith) in
    (_, rw (q.circle.0, nonzero, walk) refl, enqueue_more s i p head xs q out b)

-- The first process of its priority becomes its own `next`, and no other static variable but the
-- ready queue changes.
pub add_process_alone :
    (fuel p : ℕ) (s : System)
    → p ≢ 0
    → s.ready_queue (queue_index (s.pcbs p)) ≡ 0
    → (t : System) × (add_process fuel p s ≡ some t)
      × (links t p ≡ p)
      × (t.process_list ≡ s.process_list)
      × ((a : ℕ) → (t.pcbs a).pid ≡ (s.pcbs a).pid)
unfolding add_process enqueue
add_process_alone fuel p s ne empty =
    let null : (p == 0) ≡ false = ground arith in
    let m = modify s.pcbs p make_ready in
    (
      record s {
        pcbs = set_next m p p;
        ready_queue = update s.ready_queue (queue_index (s.pcbs p)) p;
      },
      rw (null, empty) refl,
      ground (arith, set_next_lem m p p p),
      refl,
      λ a.
          modify_keeps (λ b. b.pid) m p (λ b. record b { next = p }) (λ b. refl) a
          ∙ modify_keeps (λ b. b.pid) s.pcbs p make_ready (λ b. refl) a,
    )
