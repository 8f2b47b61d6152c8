-- ===== src/Process/Lifecycle/Termination.antt =====
-- `process_terminate` on a process list that stands for a list of blocks.
use munux.Common.{
  ℕ, zero, suc, ◌≤◌, ◌<◌, ◌≡◌, ◌≢◌, refl, ap, ◌∙◌, inl, inr, true, false, none, some, List, [], ◌∷◌,
  ◌++◌, ◌==◌, arith, length, length-append, Bool-cases, if◌then◌else◌,
}
use mathlib.Core.Path.{subst}
use munux.Common.Word.{sub32}
use munux.Process.Pcb.{Pcb, System, terminated, modify, modify_keeps, set_next, set_next_lem}
use munux.Process.Links.{has, Distinct, Seg, last, has-last, has-append, Seg-frame}
use munux.Process.Scheduler.Cut.{
  without, has-without, Distinct-without, split_at, Distinct-append, Seg-relink, Seg-append,
  Seg-parts,
}
use munux.Process.Lifecycle.{find_previous, unregister, terminate}
use munux.Process.Lifecycle.Registry.{Registered}

-- The walk finds the block in front of `p`.
find_previous_lem :
    (zs : List ℕ) (n p z : ℕ) (m : ℕ → Pcb)
    → z ≢ 0
    → has 0 zs ≡ false
    → Seg (λ a. (m a).next) (m z).next zs p
    → has p zs ≡ false
    → length zs < n
    → find_previous n m p z ≡ some (last z zs)
unfolding find_previous
find_previous_lem zs zero p z m nz null g out l = elim l [ ]
find_previous_lem [] (suc n) p z m nz null g out l = ground (arith, g)
find_previous_lem (y ∷ ys) (suc n) p z m nz null g out l =
    let here : (z == 0) ≡ false = ground arith in
    let other : ((m z).next == p) ≡ false = ground (arith, g.0) in
    rw (here, other, g.0)
      (find_previous_lem ys n p y m (ground arith) (ground arith) g.1 (ground arith) (omega arith))

null-without : (p : ℕ) (xs : List ℕ) → has 0 xs ≡ false → has 0 (without p xs) ≡ false
null-without p xs h = ground (arith, has-without 0 p xs, Bool-cases (has 0 (without p xs)))

unregister_lem :
    (fuel p : ℕ) (xs : List ℕ) (s : System)
    → Registered s xs
    → has p xs ≡ true
    → length xs ≤ fuel
    → (t : System) × (unregister fuel p s ≡ some t)
      × Registered t (without p xs)
      × (t.current ≡ s.current)
      × ((a : ℕ) → (t.pcbs a).state ≡ (s.pcbs a).state)
      × ((a : ℕ) → (t.pcbs a).kernel_stack ≡ (s.pcbs a).kernel_stack)
      × ((a : ℕ) → (t.pcbs a).user_stack ≡ (s.pcbs a).user_stack)
unfolding unregister
unregister_lem fuel p [] s r inside l = absurd (ground arith)
unregister_lem fuel p (x ∷ ys) s r inside l = elim (Bool-cases (x == p)) [
  | inl first ↦
      let e : x ≡ p = ground arith in
      let head : (s.process_list == p) ≡ true = ground (arith, r.chain.0) in
      let left : without p (x ∷ ys) ≡ ys = unfold without in rw first refl in
      (
        record s { process_list = (s.pcbs p).next },
        rw head refl,
        rw left (record {
          chain = rw e at r.chain.1;
          distinct = r.distinct.1;
          no_null = ground (arith, r.no_null);
        }),
        refl,
        λ a. refl,
        λ a. refl,
        λ a. refl,
      )
  | inr later ↦
      let (us, vs, eq, out, rest) = split_at p ys (ground arith) in
      let left : without p (x ∷ ys) ≡ x ∷ us ++ vs =
        unfold without in rw later (ap (λ zs. x ∷ zs) rest) in
      let z = last x us in
      let t : System = record s { pcbs = set_next s.pcbs z (s.pcbs p).next } in
      let nx : ℕ → ℕ = λ a. (s.pcbs a).next in
      let whole : x ∷ ys ≡ x ∷ us ++ p ∷ vs = ap (λ zs. x ∷ zs) eq in
      let chain : Seg nx s.process_list (x ∷ us ++ p ∷ vs) 0 =
        subst (λ zs. Seg nx s.process_list zs 0) whole r.chain in
      let different : Distinct (x ∷ us ++ p ∷ vs) = subst Distinct whole r.distinct in
      let (front, apart) = Distinct-append (x ∷ us) (p ∷ vs) different in
      let (to_p, from_p) = Seg-parts nx (x ∷ us) p vs s.process_list 0 chain in
      let no_null : has 0 (x ∷ us ++ p ∷ vs) ≡ false =
        subst (λ zs. has 0 zs ≡ false) whole r.no_null in
      let walk : find_previous fuel s.pcbs p x ≡ some z =
        find_previous_lem us fuel p x s.pcbs (ground arith)
          (ground (arith, has-append 0 us (p ∷ vs))) to_p.1 out
          (omega (arith, ap length eq, length-append us (p ∷ vs))) in
      let not_head : (s.process_list == p) ≡ false = ground (arith, r.chain.0) in
      let there : (z == 0) ≡ false =
        ground (arith, has-append 0 (x ∷ us) (p ∷ vs), has-last x us, Bool-cases (z == 0)) in
      let relinked : (a : ℕ) → (t.pcbs a).next ≡ (if a == z then nx p else nx a) =
        set_next_lem s.pcbs z (nx p) in
      (
        t,
        rw (not_head, r.chain.0, walk, there) refl,
        rw left (record {
          chain =
              Seg-append (λ a. (t.pcbs a).next) (x ∷ us) vs s.process_list (nx p) 0
                (Seg-relink nx (λ a. (t.pcbs a).next) us x s.process_list p (nx p) front to_p
                  relinked)
                (Seg-frame nx (λ a. (t.pcbs a).next) vs (nx p) 0
                  (λ a h. ground (arith, relinked a, apart z (has-last x us))) from_p);
          distinct = subst Distinct left (Distinct-without p (x ∷ ys) r.distinct).0;
          no_null = subst (λ zs. has 0 zs ≡ false) left (null-without p (x ∷ ys) r.no_null);
        }),
        refl,
        modify_keeps (λ b. b.state) s.pcbs z (λ b. record b { next = nx p }) (λ b. refl),
        modify_keeps (λ b. b.kernel_stack) s.pcbs z (λ b. record b { next = nx p }) (λ b. refl),
        modify_keeps (λ b. b.user_stack) s.pcbs z (λ b. record b { next = nx p }) (λ b. refl),
      )
]

-- Where the process list is the chain of `xs`, `p` is in it but is not the current process, and the
-- walk may take as many steps as the list is long, `process_terminate` ends: the list is then the
-- chain of `xs` less `p`, `p` is terminated, the first bytes of its kernel stack and of its user
-- stack, each 8192 below the pointer of its block, and the block itself are given back in this
-- order, and nothing is switched.
pub terminate_lem {ℓ} :
    {Heap : Type ℓ} (kfree : ℕ → Heap → Heap) (fuel p : ℕ) (xs : List ℕ) (h : Heap) (s : System)
    → Registered s xs
    → has p xs ≡ true
    → s.current ≢ p
    → length xs ≤ fuel
    → (t : System) × (terminate kfree fuel p h s
        ≡ some (
          kfree p (
              kfree
                (sub32 (s.pcbs p).user_stack 8192)
                (kfree (sub32 (s.pcbs p).kernel_stack 8192) h)),
          t,
          none,
        ))
      × Registered t (without p xs)
      × (has p (without p xs) ≡ false)
      × ((t.pcbs p).state ≡ terminated)
unfolding terminate
terminate_lem kfree fuel p xs h s r inside other l =
    let f : Pcb → Pcb = λ b. record b { state = terminated } in
    let s' : System = record s { pcbs = modify s.pcbs p f } in
    let r' : Registered s' xs = record {
      chain =
          Seg-frame (λ a. (s.pcbs a).next) (λ a. (s'.pcbs a).next) xs s.process_list 0
            (λ a m. modify_keeps (λ b. b.next) s.pcbs p f (λ b. refl) a) r.chain;
      distinct = r.distinct;
      no_null = r.no_null;
    } in
    let (t, e, rest, cur, states, kernel, user) = unregister_lem fuel p xs s' r' inside l in
    let null : (p == 0) ≡ false = ground (arith, r.no_null) in
    let apart : (t.current == p) ≡ false = ground (arith, cur) in
    let self : (p == p) ≡ true = ground arith in
    let kernel' : (t.pcbs p).kernel_stack ≡ (s.pcbs p).kernel_stack =
      kernel p ∙ modify_keeps (λ b. b.kernel_stack) s.pcbs p f (λ b. refl) p in
    let user' : (t.pcbs p).user_stack ≡ (s.pcbs p).user_stack =
      user p ∙ modify_keeps (λ b. b.user_stack) s.pcbs p f (λ b. refl) p in
    (
      t,
      rw (null, e, apart, kernel', user') refl,
      rest,
      (Distinct-without p xs r.distinct).1,
      states p ∙ rw self refl,
    )
