-- ===== src/Process/Links.antt =====
-- Chains of blocks: what a walk along `next` meets, and what a change of links leaves of it.
use munux.Common.{
  ℕ, ◌≡◌, refl, Bool, true, false, ◌||◌, List, [], ◌∷◌, ◌++◌, ◌==◌, if◌then◌else◌, arith,
  Bool-cases, inl, inr,
}

abbrev pub has : ℕ → List ℕ → Bool
has x [] = false
has x (y ∷ ys) = (x == y) || has x ys

abbrev pub Distinct : List ℕ → Type 0
Distinct [] = Unit
Distinct (x ∷ xs) = (has x xs ≡ false) × Distinct xs

-- From `p`, the links lead through the blocks `xs` to `q`.
abbrev pub Seg : (ℕ → ℕ) → ℕ → List ℕ → ℕ → Type 0
Seg nx p [] q = p ≡ q
Seg nx p (x ∷ xs) q = (p ≡ x) × Seg nx (nx x) xs q

-- The last of `x` and `xs`.
abbrev pub last : ℕ → List ℕ → ℕ
last x [] = x
last x (y ∷ ys) = last y ys

pub has-append : (a : ℕ) (xs ys : List ℕ) → has a (xs ++ ys) ≡ (has a xs || has a ys)
has-append a [] ys = refl
has-append a (x ∷ xs) ys = ground (arith, has-append a xs ys)

pub has-last : (x : ℕ) (xs : List ℕ) → has (last x xs) (x ∷ xs) ≡ true
has-last x [] = ground arith
has-last x (y ∷ ys) = ground (arith, has-last y ys)

pub Distinct-append_one :
    (xs : List ℕ) (a : ℕ) → Distinct xs → has a xs ≡ false → Distinct (xs ++ a ∷ [])
Distinct-append_one [] a d h = (refl, tt)
Distinct-append_one (x ∷ xs) a d h =
    (ground (arith, has-append x xs (a ∷ [])), Distinct-append_one xs a d.1 (ground arith))

-- A chain depends on the links of its blocks only.
pub Seg-frame :
    (nx ny : ℕ → ℕ) (xs : List ℕ) (p q : ℕ)
    → ((a : ℕ) → has a xs ≡ true → ny a ≡ nx a)
    → Seg nx p xs q
    → Seg ny p xs q
Seg-frame nx ny [] p q same s = s
Seg-frame nx ny (x ∷ xs) p q same s = (
  s.0,
  rw (same x (ground arith)) (Seg-frame nx ny xs (nx x) q (λ a h. same a (ground (arith, h))) s.1),
)

-- The chain goes on to the block after its end.
pub Seg-append_one :
    (nx : ℕ → ℕ) (xs : List ℕ) (p q : ℕ) → Seg nx p xs q → Seg nx p (xs ++ q ∷ []) (nx q)
Seg-append_one nx [] p q s = (s, refl)
Seg-append_one nx (x ∷ xs) p q s = (s.0, Seg-append_one nx xs (nx x) q s.1)

-- Behind the last block of a chain a new one is linked in.
pub Seg-link_last :
    (nx ny : ℕ → ℕ) (xs : List ℕ) (x p q : ℕ)
    → Distinct (x ∷ xs)
    → has p (x ∷ xs) ≡ false
    → Seg nx x (x ∷ xs) q
    → ((a : ℕ) → ny a ≡ (if a == p then q else if a == last x xs then p else nx a))
    → Seg ny x (x ∷ xs ++ p ∷ []) q
Seg-link_last nx ny [] x p q d h s links =
    (refl, (ground (arith, links x), ground (arith, links p)))
Seg-link_last nx ny (y ∷ ys) x p q d h s links =
    let step : ny x ≡ y = ground (arith, links x, has-last y ys, s.1.0) in
    (refl, rw step (Seg-link_last nx ny ys y p q d.1 (ground arith) (refl, s.1.1) links))

-- What holds of the items of a list and of one more.
pub of_has-append_one {ℓ} :
    (P : ℕ → Type ℓ) (xs : List ℕ) (p : ℕ)
    → ((a : ℕ) → has a xs ≡ true → P a)
    → P p
    → (a : ℕ) → has a (xs ++ p ∷ []) ≡ true
    → P a
of_has-append_one P xs p f h a m = elim (Bool-cases (has a xs)) [
  | inl inside ↦ f a inside
  | inr outside ↦ (let e : a ≡ p = ground (arith, has-append a xs (p ∷ [])) in rw e h)
]
