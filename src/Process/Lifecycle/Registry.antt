-- ===== src/Process/Lifecycle/Registry.antt =====
-- The process list: what `process_create` appends, what `process_find_by_pid` finds, and what
-- becomes of the list when the scheduler takes over the links.
use munux.Common.{
  ℕ, zero, suc, ◌≤◌, ◌<◌, ◌≡◌, ◌≢◌, refl, sym, ◌∙◌, true, false, none, some, List, [], ◌∷◌, ◌++◌,
  ◌==◌, if◌then◌else◌, arith, length,
}
use munux.Process.Pcb.{Pcb, System, modify, modify_keeps, set_next, set_next_lem}
use munux.Process.Links.{
  has, Distinct, Seg, last, has-last, has-append, Distinct-append_one, Seg-frame, Seg-link_last,
}
use munux.Process.Scheduler.{queue_index, add_process}
use munux.Process.Scheduler.Queues.{add_process_alone}
use munux.Process.Lifecycle.{list_end, register, find_from, find_by_pid, new_pcb, create}
use munux.Common.Word.{add32}

-- The process list is the chain of the blocks `xs`, all different and not null, up to the null
-- pointer.
pub record Registered (s : System) (xs : List ℕ) : Type 0 where
  pub chain : Seg (λ a. (s.pcbs a).next) s.process_list xs 0
  pub distinct : Distinct xs
  pub no_null : has 0 xs ≡ false

-- The first block with the number, or 0.
abbrev pub with_pid : (ℕ → Pcb) → ℕ → List ℕ → ℕ
with_pid m pid [] = 0
with_pid m pid (x ∷ xs) = if (m x).pid == pid then x else with_pid m pid xs

find_from_lem :
    (xs : List ℕ) (n p : ℕ) (m : ℕ → Pcb) (pid : ℕ)
    → Seg (λ a. (m a).next) p xs 0
    → has 0 xs ≡ false
    → length xs < n
    → find_from n m pid p ≡ some (with_pid m pid xs)
unfolding find_from
find_from_lem xs zero p m pid s h l = elim l [ ]
find_from_lem [] (suc n) p m pid s h l = rw s refl
find_from_lem (x ∷ xs) (suc n) p m pid s h l =
    ground (arith, s.0, find_from_lem xs n (m x).next m pid s.1 (ground arith) (omega arith))

-- Where the process list is the chain of `xs`, and the walk may take more steps than `xs` is
-- long, `process_find_by_pid` ends, with the first process of the list that has the number, or
-- with the null pointer if none has it.
pub find_by_pid_lem :
    (s : System) (xs : List ℕ) (fuel pid : ℕ)
    → Registered s xs
    → length xs < fuel
    → find_by_pid fuel s pid ≡ some (with_pid s.pcbs pid xs)
unfolding find_by_pid
find_by_pid_lem s xs fuel pid r l =
    find_from_lem xs fuel s.process_list s.pcbs pid r.chain r.no_null l

-- Round a block that is its own `next`, the walk has no end.
find_from_loops :
    (n p : ℕ) (m : ℕ → Pcb) (pid : ℕ)
    → p ≢ 0
    → (m p).next ≡ p
    → (m p).pid ≢ pid
    → find_from n m pid p ≡ none
unfolding find_from
find_from_loops zero p m pid ne own other = refl
find_from_loops (suc n) p m pid ne own other =
    ground (arith, find_from_loops n p m pid ne own other)

list_end_loops : (n p : ℕ) (m : ℕ → Pcb) → p ≢ 0 → (m p).next ≡ p → list_end n m p ≡ none
unfolding list_end
list_end_loops zero p m ne own = refl
list_end_loops (suc n) p m ne own = ground (arith, list_end_loops n p m ne own)

-- `process_create` and the scheduler share the `next` of a block: once the head of the process
-- list is the first process of its priority in the ready queues, looking for any other number
-- and registering a process walk on for ever, whatever the fuel.
pub find_by_pid-add_process :
    (fuel p pid : ℕ) (s : System)
    → p ≢ 0
    → s.process_list ≡ p
    → s.ready_queue (queue_index (s.pcbs p)) ≡ 0
    → (s.pcbs p).pid ≢ pid
    → (t : System) × (add_process fuel p s ≡ some t)
      × ((n : ℕ) → find_by_pid n t pid ≡ none)
      × ((n q : ℕ) → register n q t ≡ none)
unfolding find_by_pid register
find_by_pid-add_process fuel p pid s ne head empty other =
    let (t, e, own, same_list, same_pid) = add_process_alone fuel p s ne empty in
    let at : t.process_list ≡ p = same_list ∙ head in
    let null : (p == 0) ≡ false = ground arith in
    (
      t,
      e,
      λ n. rw at (find_from_loops n p t.pcbs pid ne own λ h. other (sym (same_pid p) ∙ h)),
      λ n q. rw (at, null, list_end_loops n p t.pcbs ne own) refl,
    )

-- The walk of `process_create` ends at the last block of the list.
list_end_lem :
    (xs : List ℕ) (x n : ℕ) (m : ℕ → Pcb)
    → Seg (λ a. (m a).next) (m x).next xs 0
    → has 0 xs ≡ false
    → length xs < n
    → list_end n m x ≡ some (last x xs)
unfolding list_end
list_end_lem xs x zero m s h l = elim l [ ]
list_end_lem [] x (suc n) m s h l = ground (arith, s)
list_end_lem (y ∷ ys) x (suc n) m s h l =
    ground (arith, s.0, list_end_lem ys y n m s.1 (ground arith) (omega arith))

-- A new block, whose `next` is null, goes to the end of the chain.
register_lem :
    (xs : List ℕ) (fuel p : ℕ) (s : System)
    → Registered s xs
    → p ≢ 0
    → has p xs ≡ false
    → (s.pcbs p).next ≡ 0
    → length xs ≤ fuel
    → (t : System) × (register fuel p s ≡ some t)
      × Registered t (xs ++ p ∷ [])
      × ((a : ℕ) → (t.pcbs a).pid ≡ (s.pcbs a).pid)
      × (t.next_pid ≡ s.next_pid)
unfolding register
register_lem [] fuel p s r ne out tail l = (
  record s { process_list = p },
  rw r.chain refl,
  record { chain = (refl, tail); distinct = (refl, tt); no_null = ground arith },
  λ a. refl,
  refl,
)
register_lem (x ∷ xs) fuel p s r ne out tail l =
    let null : (x == 0) ≡ false = ground (arith, r.no_null) in
    let walk = list_end_lem xs x fuel s.pcbs r.chain.1 (ground (arith, r.no_null)) (omega arith) in
    let t : System = record s { pcbs = set_next s.pcbs (last x xs) p } in
    (
      t,
      rw (r.chain.0, null, walk) refl,
      record {
        chain = (
          r.chain.0,
          (Seg-link_last (λ a. (s.pcbs a).next) (λ a. (t.pcbs a).next) xs x p 0 r.distinct out
              (refl, r.chain.1)
              λ a. ground (arith, set_next_lem s.pcbs (last x xs) p a, has-last x xs, tail)).1,
        );
        distinct = Distinct-append_one (x ∷ xs) p r.distinct out;
        no_null = ground (arith, has-append 0 (x ∷ xs) (p ∷ []), r.no_null);
      },
      modify_keeps (λ b. b.pid) s.pcbs (last x xs) (λ b. record b { next = p }) (λ b. refl),
      refl,
    )

-- Where the process list is the chain of `xs`, `kmalloc` returns for the block an address `p` that
-- is not null and not in the list, and the walk may take as many steps as the list is long,
-- `process_create` ends and returns `p`; the process list is then the chain of `xs` and `p`, and
-- `p` has the number that was next, which goes up by one.
pub create_lem {ℓ} :
    {Heap : Type ℓ} (kmalloc : ℕ → Heap → ℕ × Heap) (fuel size page_dir : ℕ) (name : List ℕ)
    (entry_point priority : ℕ) (h : Heap) (s : System) (xs : List ℕ)
    → Registered s xs
    → (kmalloc size h).0 ≢ 0
    → has (kmalloc size h).0 xs ≡ false
    → length xs ≤ fuel
    → (h' : Heap) × (t : System) × (create kmalloc fuel size page_dir name entry_point priority h s
        ≡ some ((kmalloc size h).0, h', t))
      × Registered t (xs ++ (kmalloc size h).0 ∷ [])
      × ((t.pcbs (kmalloc size h).0).pid ≡ s.next_pid)
      × (t.next_pid ≡ add32 s.next_pid 1)
unfolding create
create_lem kmalloc fuel size page_dir name entry_point priority h s xs r ne out l =
    let p = (kmalloc size h).0 in
    let kernel = kmalloc 8192 (kmalloc size h).1 in
    let user = kmalloc 8192 kernel.1 in
    let block =
      new_pcb name entry_point priority (add32 kernel.0 8192) (add32 user.0 8192) page_dir s in
    let s' : System = record s {
      pcbs = modify s.pcbs p (λ _. block);
      next_pid = add32 s.next_pid 1;
    } in
    let self : (p == p) ≡ true = ground arith in
    let null : (p == 0) ≡ false = ground arith in
    let apart : (a : ℕ) → has a xs ≡ true → (a == p) ≡ false = λ a m. ground arith in
    let r' : Registered s' xs = record {
      chain =
          Seg-frame (λ a. (s.pcbs a).next) (λ a. (s'.pcbs a).next) xs s.process_list 0
            (λ a m. rw (apart a m) refl) r.chain;
      distinct = r.distinct;
      no_null = r.no_null;
    } in
    let (t, e, chain, pids, number) = register_lem xs fuel p s' r' ne out (rw self refl) l in
    (user.1, t, rw (null, e) refl, chain, pids p ∙ rw self refl, number)
