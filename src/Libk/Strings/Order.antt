-- ===== src/Libk/Strings/Order.antt =====
-- What the comparisons decide.
use munux.Common.{ℕ, zero, suc, ◌≡◌, ◌≢◌, ◌↔◌, refl, List, [], ◌∷◌, All, take, arith}
use munux.Common.Int.{pos, ◌-ℤ◌}
use munux.Libk.Strings.{strcmp, strncmp}

-- No byte of a C string is NUL.
abbrev pub IsText : List ℕ → Type 0
IsText = All (λ c. c ≢ 0)

difference_ne : (a b : ℕ) → a ≢ b → (pos a -ℤ pos b) ≢ pos 0
unfolding ◌-ℤ◌
difference_ne a b ne = ground arith

-- `strncmp` compares what `strcmp` does, of the first `n` bytes.
pub strncmp-strcmp : (xs ys : List ℕ) (n : ℕ) → strncmp xs ys n ≡ strcmp (take n xs) (take n ys)
unfolding strncmp strcmp
strncmp-strcmp xs ys zero = refl
strncmp-strcmp [] [] (suc n) = refl
strncmp-strcmp [] (b ∷ ys) (suc n) = refl
strncmp-strcmp (a ∷ xs) [] (suc n) = refl
strncmp-strcmp (a ∷ xs) (b ∷ ys) (suc n) = ground (arith, strncmp-strcmp xs ys n)

eq_of_strcmp : (xs ys : List ℕ) → IsText xs → IsText ys → strcmp xs ys ≡ pos 0 → xs ≡ ys
unfolding strcmp
eq_of_strcmp [] [] ta tb h = refl
eq_of_strcmp [] (b ∷ ys) ta tb h = ground (arith, difference_ne 0 b)
eq_of_strcmp (a ∷ xs) [] ta tb h = ground (arith, difference_ne a 0)
eq_of_strcmp (a ∷ xs) (b ∷ ys) ta tb h =
    ground (arith, difference_ne a b, eq_of_strcmp xs ys ta.1 tb.1)

strcmp_self : (xs : List ℕ) → strcmp xs xs ≡ pos 0
unfolding strcmp
strcmp_self [] = refl
strcmp_self (a ∷ xs) = ground (arith, strcmp_self xs)

-- `strcmp` of two strings is 0 exactly when they are equal.
pub strcmp_iff : (xs ys : List ℕ) → IsText xs → IsText ys → (strcmp xs ys ≡ pos 0) ↔ (xs ≡ ys)
strcmp_iff xs ys ta tb = (eq_of_strcmp xs ys ta tb, λ e. rw e (strcmp_self ys))
