-- ===== src/Process/Scheduler/Removal.antt =====
-- `scheduler_remove_process` on ready queues that stand for lists.
use munux.Common.{
  ℕ, zero, suc, ◌≤◌, ◌<◌, ◌≡◌, ◌≢◌, refl, sym, ap, ◌∙◌, inl, inr, true, false, some, List, [], ◌∷◌,
  ◌++◌, ◌==◌, arith, length, length-append, Bool-cases, if◌then◌else◌,
}
use mathlib.Core.Path.{subst, subst⁻¹}
use munux.Common.Memory.{update}
use munux.Process.Pcb.{System, set_next, set_next_lem}
use munux.Process.Links.{has, Seg, last, has-last, has-append, Seg-frame}
use munux.Process.Scheduler.{queue_index, unlink, remove_process}
use munux.Process.Scheduler.Queues.{
  links, Circle, IsQueue, IsQueue-frame, AreQueues, replace, AreQueues-replace, set_next_prio,
}
use munux.Process.Scheduler.Cut.{
  without, has-without, Distinct-without, split_at, Distinct-append, Seg-relink, Seg-append,
  Seg-parts,
}

-- The state once `z` leads past `p`.
abbrev bypassed : System → (i p z : ℕ) → System
bypassed s i p z = record s {
  pcbs = set_next s.pcbs z (s.pcbs p).next;
  ready_queue =
      if s.ready_queue i == p
      then update s.ready_queue i (set_next s.pcbs z (s.pcbs p).next p).next
      else s.ready_queue;
}

-- The walk finds the block in front of `p`, and ends there.
unlink_lem :
    (zs : List ℕ) (n i p z : ℕ) (s : System)
    → Seg (links s) (links s z) zs p
    → has p zs ≡ false
    → has (s.ready_queue i) zs ≡ false
    → length zs < n
    → unlink n i p z s ≡ some (bypassed s i p (last z zs))
unfolding unlink
unlink_lem zs zero i p z s g out below l = elim l [ ]
unlink_lem [] (suc n) i p z s g out below l =
    let e : (links s z == p) ≡ true = ground arith in rw e refl
unlink_lem (y ∷ ys) (suc n) i p z s g out below l =
    let other : (links s z == p) ≡ false = ground (arith, g.0) in
    let on : (links s z == s.ready_queue i) ≡ false = ground (arith, g.0) in
    rw (other, on, g.0) (unlink_lem ys n i p y s g.1 (ground arith) (ground arith) (omega arith))

bypassed_next :
    (s : System) (i p z a : ℕ)
    → links (bypassed s i p z) a ≡ (if a == z then links s p else links s a)
bypassed_next s i p z a = set_next_lem s.pcbs z (s.pcbs p).next a

-- What is left of a circle whose head is cut out.
cut_head :
    (s : System) (i p y : ℕ) (ys : List ℕ)
    → IsQueue s i (p ∷ y ∷ ys)
    → Circle
        (links (bypassed s i p (last y ys)))
        ((bypassed s i p (last y ys)).ready_queue i)
        (y ∷ ys)
cut_head s i p y ys q =
    let z = last y ys in
    let t = bypassed s i p z in
    let round = q.circle.1.1 in
    let first : links s p ≡ y = round.0 in
    let at_head : (s.ready_queue i == p) ≡ true = ground (arith, q.circle.0) in
    let apart : (p == z) ≡ false = ground (arith, has-last y ys, q.distinct.0) in
    let self : (i == i) ≡ true = ground arith in
    (
      rw (at_head, self, apart) first,
      subst (λ b. Seg (links t) b (y ∷ ys) y) first
          (Seg-relink (links s) (links t) ys y (links s p) p y q.distinct.1 round
            (λ a. bypassed_next s i p z a ∙ ap (λ b. if a == z then b else links s a) first)),
    )

-- What is left of a circle out of which another block is cut.
cut_inner :
    (s : System) (i p x : ℕ) (us vs : List ℕ)
    → IsQueue s i (x ∷ us ++ p ∷ vs)
    → Circle
        (links (bypassed s i p (last x us)))
        ((bypassed s i p (last x us)).ready_queue i)
        (x ∷ us ++ vs)
cut_inner s i p x us vs q =
    let z = last x us in
    let t = bypassed s i p z in
    let (front, apart) = Distinct-append (x ∷ us) (p ∷ vs) q.distinct in
    let (to_p, from_p) = Seg-parts (links s) (x ∷ us) p vs x x q.circle.1 in
    let no_head : (s.ready_queue i == p) ≡ false = ground (arith, q.circle.0, apart x) in
    (
      rw no_head q.circle.0,
      Seg-append (links t) (x ∷ us) vs x (links s p) x
          (Seg-relink (links s) (links t) us x x p (links s p) front to_p (bypassed_next s i p z))
          (Seg-frame (links s) (links t) vs (links s p) x
            (λ a h. ground (arith, bypassed_next s i p z a, apart z (has-last x us))) from_p),
    )

-- The other queues stay.
bypassed_other :
    (s : System) (i p z : ℕ) (xs : List ℕ)
    → IsQueue s i xs
    → has z xs ≡ true
    → (j : ℕ) (ys : List ℕ) → j ≢ i
    → IsQueue s j ys
    → IsQueue (bypassed s i p z) j ys
bypassed_other s i p z xs q inside j ys ne r =
    IsQueue-frame s (bypassed s i p z) j ys (ground arith)
      (λ a h.
        let apart : a ≢ z = λ e.
          ne (sym (r.belong a h).1 ∙ ap (λ c. queue_index (s.pcbs c)) e ∙ (q.belong z inside).1) in
        ground (arith, bypassed_next s i p z a))
      (set_next_prio s.pcbs z (links s p)) r

-- The circle with the block cut out is a queue.
cut-IsQueue :
    (s : System) (i p z : ℕ) (xs : List ℕ)
    → IsQueue s i xs
    → Circle (links (bypassed s i p z)) ((bypassed s i p z).ready_queue i) (without p xs)
    → IsQueue (bypassed s i p z) i (without p xs)
cut-IsQueue s i p z xs q circle = record {
  circle = circle;
  distinct = (Distinct-without p xs q.distinct).0;
  belong = λ a h.
      let (ne, prio) = q.belong a (has-without a p xs h) in
      (ne, set_next_prio s.pcbs z (links s p) a ∙ prio);
}

-- What the code does to queue `i` with the blocks `x` and `xs`.
abbrev CutOut : System → ℕ → ℕ → List ℕ → System → Type 0
CutOut s i p xs t =
    IsQueue t i (without p xs) × ((j : ℕ) (ys : List ℕ) → j ≢ i → IsQueue s j ys → IsQueue t j ys)

-- The only block of a queue.
removed_only :
    (s : System) (i p : ℕ)
    → IsQueue s i (p ∷ [])
    → CutOut s i p (p ∷ []) (record s { ready_queue = update s.ready_queue i 0 })
unfolding without
removed_only s i p q =
    let self : (i == i) ≡ true = ground arith in
    let same : (p == p) ≡ true = ground arith in
    (
      rw same
          (record { circle = rw self refl; distinct = tt; belong = λ a h. absurd (ground arith) }),
      λ j ys ne r.
          IsQueue-frame s (record s { ready_queue = update s.ready_queue i 0 }) j ys (ground arith)
            (λ a h. refl) (λ a. refl) r,
    )

-- The walk and what it leaves, for a queue of two blocks or more.
removed_more :
    (fuel i p x y : ℕ) (ys : List ℕ) (s : System)
    → IsQueue s i (x ∷ y ∷ ys)
    → has p (x ∷ y ∷ ys) ≡ true
    → length (y ∷ ys) < fuel
    → (t : System) × (unlink fuel i p x s ≡ some t) × CutOut s i p (x ∷ y ∷ ys) t
removed_more fuel i p x y ys s q inside l = elim (Bool-cases (x == p)) [
  | inl at_head ↦
      let e : x ≡ p = ground arith in
      let q' : IsQueue s i (p ∷ y ∷ ys) = rw e at q in
      let z = last y ys in
      let rest : without p (p ∷ y ∷ ys) ≡ y ∷ ys =
        let self : (p == p) ≡ true = ground arith in unfold without in rw self refl in
      let walk =
        unlink_lem (y ∷ ys) fuel i p p s q'.circle.1.1 q'.distinct.0
          (subst⁻¹ (λ h. has h (y ∷ ys) ≡ false) q'.circle.0 q'.distinct.0) l in
      rw e (
        bypassed s i p z,
        walk,
        (
          cut-IsQueue s i p z (p ∷ y ∷ ys) q' (rw rest (cut_head s i p y ys q')),
          bypassed_other s i p z (p ∷ y ∷ ys) q' (ground (arith, has-last y ys)),
        ),
      )
  | inr behind ↦
      let (us, vs, eq, out, rest) = split_at p (y ∷ ys) (ground arith) in
      let whole : x ∷ y ∷ ys ≡ x ∷ us ++ p ∷ vs = ap (λ zs. x ∷ zs) eq in
      let q' : IsQueue s i (x ∷ us ++ p ∷ vs) = subst (IsQueue s i) whole q in
      let left : without p (x ∷ y ∷ ys) ≡ x ∷ us ++ vs =
        unfold without in rw behind (ap (λ zs. x ∷ zs) rest) in
      let (front, _) = Distinct-append (x ∷ us) (p ∷ vs) q'.distinct in
      let (to_p, _) = Seg-parts (links s) us p vs (links s x) x q'.circle.1.1 in
      let short : length us < fuel = omega (arith, ap length eq, length-append us (p ∷ vs)) in
      let z = last x us in
      let inside_z : has z (x ∷ y ∷ ys) ≡ true =
        subst⁻¹ (λ zs. has z zs ≡ true) whole
          (ground (arith, has-append z (x ∷ us) (p ∷ vs), has-last x us)) in
      (
        bypassed s i p z,
        unlink_lem us fuel i p x s to_p out (subst⁻¹ (λ h. has h us ≡ false) q'.circle.0 front.0)
            short,
        (
          cut-IsQueue s i p z (x ∷ y ∷ ys) q (rw left (cut_inner s i p x us vs q')),
          bypassed_other s i p z (x ∷ y ∷ ys) q inside_z,
        ),
      )
]

remove_process-CutOut :
    (fuel i p : ℕ) (xs : List ℕ) (s : System)
    → IsQueue s i xs
    → has p xs ≡ true
    → length xs ≤ fuel
    → i ≡ queue_index (s.pcbs p)
    → p ≢ 0
    → (t : System) × (remove_process fuel p s ≡ some t) × CutOut s i p xs t
unfolding remove_process
remove_process-CutOut fuel i p [] s q inside l prio ne = absurd (ground arith)
remove_process-CutOut fuel i p (x ∷ []) s q inside l prio ne =
    let e : x ≡ p = ground arith in
    let q' : IsQueue s i (p ∷ []) = rw e at q in
    let null : (p == 0) ≡ false = ground arith in
    let self : (p == p) ≡ true = ground arith in
    rw (e, ← prio, null, q'.circle.0, null, q'.circle.1.1, self)
      (record s { ready_queue = update s.ready_queue i 0 }, refl, removed_only s i p q')
remove_process-CutOut fuel i p (x ∷ y ∷ ys) s q inside l prio ne =
    let null : (p == 0) ≡ false = ground arith in
    let null' : (x == 0) ≡ false = ground (arith, q.belong x) in
    let more : (y == x) ≡ false = ground (arith, q.distinct.0) in
    let (t, e, done) = removed_more fuel i p x y ys s q inside (omega arith) in
    (t, rw (← prio, null, q.circle.0, null', q.circle.1.1.0, more) e, done)

-- Where the four queues stand for the lists `qs`, `p` is in the queue of its priority, and the walk
-- may take as many steps as that queue is long, `scheduler_remove_process` ends; the queues then
-- stand for the same lists, less `p` in that one, and `p` is not in it any more.
pub remove_process_lem :
    (fuel p : ℕ) (s : System) (qs : ℕ → List ℕ)
    → AreQueues s qs
    → let i = queue_index (s.pcbs p) in
      has p (qs i) ≡ true
      → length (qs i) ≤ fuel
      → (t : System) × (remove_process fuel p s ≡ some t)
        × AreQueues t (replace qs i (without p (qs i)))
        × (has p (without p (qs i)) ≡ false)
remove_process_lem fuel p s qs valid inside l =
    let i = queue_index (s.pcbs p) in
    let q = valid i (ground arith) in
    let (t, e, (cut, others)) =
      remove_process-CutOut fuel i p (qs i) s q inside l refl (q.belong p inside).0 in
    (
      t,
      e,
      AreQueues-replace t qs i (without p (qs i)) cut
          (λ j lj apart. others j (qs j) apart (valid j lj)),
      (Distinct-without p (qs i) q.distinct).1,
    )
