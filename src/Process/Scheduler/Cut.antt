-- ===== src/Process/Scheduler/Cut.antt =====
-- Chains of blocks out of which one block is cut.
use munux.Common.{
  ℕ, ◌≡◌, refl, ap, inl, inr, true, false, List, [], ◌∷◌, ◌++◌, ◌==◌, arith, Bool-cases,
  if◌then◌else◌,
}
use munux.Process.Links.{has, Distinct, Seg, last, has-last, has-append}

-- The list less the first `p`.
unfoldable pub without : ℕ → List ℕ → List ℕ
without p [] = []
without p (x ∷ xs) = if x == p then xs else x ∷ without p xs

pub has-without : (a p : ℕ) (xs : List ℕ) → has a (without p xs) ≡ true → has a xs ≡ true
unfolding without
has-without a p [] h = h
has-without a p (x ∷ xs) h = ground (arith, has-without a p xs)

pub Distinct-without :
    (p : ℕ) (xs : List ℕ) → Distinct xs → Distinct (without p xs) × (has p (without p xs) ≡ false)
unfolding without
Distinct-without p [] d = (tt, refl)
Distinct-without p (x ∷ xs) d = elim (Bool-cases (x == p)) [
  | inl e ↦ (let at : x ≡ p = ground arith in rw e (d.1, rw at at d.0))
  | inr e ↦
      let (rest, none_left) = Distinct-without p xs d.1 in
      let out : has x (without p xs) ≡ false =
        ground (arith, has-without x p xs, d.0, Bool-cases (has x (without p xs))) in
      rw e ((out, rest), ground arith)
]

-- What stands before and behind the first `p`.
pub split_at :
    (p : ℕ) (xs : List ℕ)
    → has p xs ≡ true
    → (us : List ℕ) × (vs : List ℕ) × (xs ≡ us ++ p ∷ vs)
      × (has p us ≡ false)
      × (without p xs ≡ us ++ vs)
unfolding without
split_at p [] h = absurd (ground arith)
split_at p (x ∷ xs) h = elim (Bool-cases (x == p)) [
  | inl e ↦ (let at : x ≡ p = ground arith in ([], xs, rw at refl, refl, rw e refl))
  | inr e ↦
      let (us, vs, eq, out, rest) = split_at p xs (ground arith) in
      (x ∷ us, vs, ap (λ ys. x ∷ ys) eq, ground arith, rw e (ap (λ ys. x ∷ ys) rest))
]

-- The parts of a list of different blocks have none in common.
pub Distinct-append :
    (xs ys : List ℕ)
    → Distinct (xs ++ ys)
    → Distinct xs × ((a : ℕ) → has a xs ≡ true → has a ys ≡ false)
Distinct-append [] ys d = (tt, λ a h. absurd (ground arith))
Distinct-append (x ∷ xs) ys d =
    let (front, apart) = Distinct-append xs ys d.1 in
    (
      (ground (arith, d.0, has-append x xs ys), front),
      λ a h. ground (arith, d.0, has-append x xs ys, apart a),
    )

-- The last link of a chain is set to another block.
pub Seg-relink :
    (nx ny : ℕ → ℕ) (xs : List ℕ) (x p q r : ℕ)
    → Distinct (x ∷ xs)
    → Seg nx p (x ∷ xs) q
    → ((a : ℕ) → ny a ≡ (if a == last x xs then r else nx a))
    → Seg ny p (x ∷ xs) r
Seg-relink nx ny [] x p q r d s links = (s.0, ground (arith, links x))
Seg-relink nx ny (y ∷ ys) x p q r d s links =
    let keep : ny x ≡ nx x = ground (arith, links x, has-last y ys) in
    (s.0, rw keep (Seg-relink nx ny ys y (nx x) q r d.1 s.1 links))

pub Seg-append :
    (nx : ℕ → ℕ) (xs ys : List ℕ) (p q r : ℕ)
    → Seg nx p xs q
    → Seg nx q ys r
    → Seg nx p (xs ++ ys) r
Seg-append nx [] ys p q r s t = rw s t
Seg-append nx (x ∷ xs) ys p q r s t = (s.0, Seg-append nx xs ys (nx x) q r s.1 t)

-- A chain in two parts.
pub Seg-parts :
    (nx : ℕ → ℕ) (xs : List ℕ) (y : ℕ) (ys : List ℕ) (p r : ℕ)
    → Seg nx p (xs ++ y ∷ ys) r
    → Seg nx p xs y × Seg nx (nx y) ys r
Seg-parts nx [] y ys p r s = (s.0, s.1)
Seg-parts nx (x ∷ xs) y ys p r s =
    let (front, back) = Seg-parts nx xs y ys (nx x) r s.1 in ((s.0, front), back)
