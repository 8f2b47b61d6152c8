-- ===== src/Common/Bits.antt =====
-- Single bits of a word: what `w | (1 << k)`, `w & ~(1 << k)` and `w & (1 << k)` do, at every width.
use Prim.Native.Nat.{ℕ, zero, suc, ◌+◌, ◌-◌, ◌*◌, ◌/◌, ◌%◌, ◌^◌, ◌≤◌, ◌<◌, min, max}
use Prim.Native.Nat.{bit_and, bit_or, digits, bit_and-bitwise, bit_or-bitwise}
use mathlib.Core.Path.{◌≡◌, refl}
use native.Mathlib.Nat.{pow-suc, one-le-pow, pow-le-pow_right}
use native.Mathlib.Omega.{arith}
use mathlib.Core.Logic.{◌↔◌, inl, inr}
use mathlib.Core.Bool.{true, false}
use munux.Common.Tests.{◌==◌, if◌then◌else◌, Bool-cases}

-- Bit `k` of `w`, 0 or 1.
unfoldable pub bit : ℕ → ℕ → ℕ
bit w zero = w % 2
bit w (suc k) = bit (w / 2) k

pub bit_range : (w k : ℕ) → bit w k < 2
unfolding bit
bit_range w zero = omega arith
bit_range w (suc k) = bit_range (w / 2) k

-- More fuel than digits changes nothing.
enough_digits :
    (z : ℕ → ℕ) (f : ℕ → ℕ → ℕ) (n m a b : ℕ) → a ≤ n → a ≤ m → digits z f n a b ≡ digits z f m a b
enough_digits z f zero zero a b p q = refl
enough_digits z f zero (suc m) zero b p q = refl
enough_digits z f zero (suc m) (suc a) b p q = elim p [ ]
enough_digits z f (suc n) zero zero b p q = refl
enough_digits z f (suc n) zero (suc a) b p q = elim q [ ]
enough_digits z f (suc n) (suc m) zero b p q = refl
enough_digits z f (suc n) (suc m) (suc a) b p q =
    rw (enough_digits z f n m (suc a / 2) (b / 2) (omega arith) (omega arith))

pub and_low : (a b : ℕ) → bit_and a b ≡ bit_and (a / 2) (b / 2) * 2 + min (a % 2) (b % 2)
and_low zero b = omega (arith, bit_and-bitwise 0 b, bit_and-bitwise 0 (b / 2))
and_low (suc a) b = omega (
  arith,
  bit_and-bitwise (suc a) b,
  bit_and-bitwise (suc a / 2) (b / 2),
  enough_digits (λ b. 0) min a (suc a / 2) (suc a / 2) (b / 2) (omega arith) (omega arith),
)

pub or_low : (a b : ℕ) → bit_or a b ≡ bit_or (a / 2) (b / 2) * 2 + max (a % 2) (b % 2)
or_low zero b = omega (arith, bit_or-bitwise 0 b, bit_or-bitwise 0 (b / 2))
or_low (suc a) b = omega (
  arith,
  bit_or-bitwise (suc a) b,
  bit_or-bitwise (suc a / 2) (b / 2),
  enough_digits (λ b. b) max a (suc a / 2) (suc a / 2) (b / 2) (omega arith) (omega arith),
)

or_zero_below : (n a : ℕ) → a ≤ n → bit_or a 0 ≡ a
or_zero_below zero a h = let e : a ≡ 0 = omega arith in rw e
or_zero_below (suc n) zero h = refl
or_zero_below (suc n) (suc a) h =
    omega (arith, or_low (suc a) 0, or_zero_below n (suc a / 2) (omega arith))

pub or_zero : (a : ℕ) → bit_or a 0 ≡ a
or_zero a = or_zero_below a a (omega arith)

and_zero_below : (n a : ℕ) → a ≤ n → bit_and a 0 ≡ 0
and_zero_below zero a h = let e : a ≡ 0 = omega arith in rw e
and_zero_below (suc n) zero h = refl
and_zero_below (suc n) (suc a) h =
    omega (arith, and_low (suc a) 0, and_zero_below n (suc a / 2) (omega arith))

pub and_zero : (a : ℕ) → bit_and a 0 ≡ 0
and_zero a = and_zero_below a a (omega arith)

half_pow : (k : ℕ) → 2 ^ suc k / 2 ≡ 2 ^ k
half_pow k = omega (arith, pow-suc 2 k)

pow_even : (k : ℕ) → 2 ^ suc k % 2 ≡ 0
pow_even k = omega (arith, pow-suc 2 k)

pub or_half : (a b : ℕ) → bit_or a b / 2 ≡ bit_or (a / 2) (b / 2)
or_half a b = omega (arith, or_low a b)

pub and_half : (a b : ℕ) → bit_and a b / 2 ≡ bit_and (a / 2) (b / 2)
and_half a b = omega (arith, and_low a b)

-- `w & (1 << k)` is the bit in its place.
pub and_pow : (w k : ℕ) → bit_and w (2 ^ k) ≡ bit w k * 2 ^ k
unfolding bit
and_pow w zero = omega (arith, and_low w 1, and_zero (w / 2))
and_pow w (suc k) =
    grind (arith, and_low w (2 ^ suc k), half_pow k, pow_even k, pow-suc 2 k, and_pow (w / 2) k)

-- `w | (1 << k)` sets bit `k` and leaves the others.
pub bit-or_pow : (w k j : ℕ) → bit (bit_or w (2 ^ k)) j ≡ (if j == k then 1 else bit w j)
unfolding bit
bit-or_pow w zero zero = omega (arith, or_low w 1)
bit-or_pow w zero (suc j) = rw (or_half w 1, or_zero) (ground arith)
bit-or_pow w (suc k) zero = ground (arith, or_low w (2 ^ suc k), pow_even k)
bit-or_pow w (suc k) (suc j) =
    rw (or_half w (2 ^ suc k), half_pow k) (ground (arith, bit-or_pow (w / 2) k j))

-- `w & (2 ^ n - 1)` keeps a word of `n` bits.
pub and_ones : (n w : ℕ) → w < 2 ^ n → bit_and w (2 ^ n - 1) ≡ w
and_ones zero w h = rw and_zero (omega arith)
and_ones (suc n) w h = ground (
  arith,
  and_low w (2 ^ suc n - 1),
  pow-suc 2 n,
  and_ones n (w / 2) (omega (arith, pow-suc 2 n)),
  halve,
  one-le-pow n 2,
)
  where
    halve : (2 ^ suc n - 1) / 2 ≡ 2 ^ n - 1
    halve = omega (arith, pow-suc 2 n)

clear_half :
    (n k : ℕ)
    → suc k < suc n
    → ((2 ^ suc n - 1 - 2 ^ suc k) / 2 ≡ 2 ^ n - 1 - 2 ^ k) × ((2 ^ suc n - 1 - 2 ^ suc k) % 2 ≡ 1)
clear_half n k h =
    let small : 2 ^ suc k ≤ 2 ^ n = pow-le-pow_right (omega arith) (omega arith) in
    let two : 2 ^ suc k ≡ 2 ^ k * 2 = pow-suc 2 k in
    let top : 2 ^ suc n ≡ 2 ^ n * 2 = pow-suc 2 n in
    let pos : 1 ≤ 2 ^ k = one-le-pow k 2 (omega arith) in (omega arith, omega arith)

-- `w & ~(1 << k)` on `n` bits clears bit `k` and leaves the others.
pub bit-and_not_pow :
    (n w k j : ℕ)
    → k < n
    → w < 2 ^ n
    → bit (bit_and w (2 ^ n - 1 - 2 ^ k)) j ≡ (if j == k then 0 else bit w j)
unfolding bit
bit-and_not_pow zero w k j h small = elim h [ ]
bit-and_not_pow (suc n) w zero zero h small =
    omega (arith, and_low w (2 ^ suc n - 1 - 2 ^ 0), pow-suc 2 n, one-le-pow n 2)
bit-and_not_pow (suc n) w zero (suc j) h small =
    let e : (2 ^ suc n - 1 - 1) / 2 ≡ 2 ^ n - 1 = omega (arith, pow-suc 2 n) in
    rw (and_half w (2 ^ suc n - 1 - 1), e, and_ones n (w / 2) (omega (arith, pow-suc 2 n)))
      (ground arith)
bit-and_not_pow (suc n) w (suc k) zero h small =
    ground (arith, and_low w (2 ^ suc n - 1 - 2 ^ suc k), clear_half n k h)
bit-and_not_pow (suc n) w (suc k) (suc j) h small =
    rw (and_half w (2 ^ suc n - 1 - 2 ^ suc k), (clear_half n k (omega arith)).0)
      (ground (arith, bit-and_not_pow n (w / 2) k j (omega arith) (omega (arith, pow-suc 2 n))))

-- A word of `n` bits whose bits are all set is `2 ^ n - 1`.
pub all_ones : (n w : ℕ) → w < 2 ^ n → ((k : ℕ) → k < n → bit w k ≡ 1) → w ≡ 2 ^ n - 1
unfolding bit
all_ones zero w small ones = omega arith
all_ones (suc n) w small ones = omega (
  arith,
  pow-suc 2 n,
  ones 0 (omega arith),
  all_ones n (w / 2) (omega (arith, pow-suc 2 n)) (λ k h. ones (suc k) (omega arith)),
)

pub or_pow-lt : (n w k : ℕ) → w < 2 ^ n → k < n → bit_or w (2 ^ k) < 2 ^ n
or_pow-lt zero w k small h = elim h [ ]
or_pow-lt (suc n) w zero small h = omega (arith, pow-suc 2 n, or_low w 1, or_zero (w / 2))
or_pow-lt (suc n) w (suc k) small h = omega (
  arith,
  pow-suc 2 n,
  or_low w (2 ^ suc k),
  pow_even k,
  or_half_pow,
  or_pow-lt n (w / 2) k (omega (arith, pow-suc 2 n)) (omega arith),
)
  where
    or_half_pow : bit_or (w / 2) (2 ^ suc k / 2) ≡ bit_or (w / 2) (2 ^ k)
    or_half_pow = rw half_pow

pub and-le : (n a b : ℕ) → a ≤ n → bit_and a b ≤ a
and-le zero a b h = let e : a ≡ 0 = omega arith in rw e (omega (arith, bit_and-bitwise 0 b))
and-le (suc n) zero b h = omega (arith, bit_and-bitwise 0 b)
and-le (suc n) (suc a) b h =
    omega (arith, and_low (suc a) b, and-le n (suc a / 2) (b / 2) (omega arith))

pub bit_ones : (n k : ℕ) → k < n → bit (2 ^ n - 1) k ≡ 1
unfolding bit
bit_ones zero k h = elim h [ ]
bit_ones (suc n) zero h = omega (arith, pow-suc 2 n, one-le-pow n 2)
bit_ones (suc n) (suc k) h =
    let e : (2 ^ suc n - 1) / 2 ≡ 2 ^ n - 1 = omega (arith, pow-suc 2 n) in
    rw e (bit_ones n k (omega arith))

-- The test `!(w & (1 << k))`.
pub bit_clear : (w k : ℕ) → ((bit_and w (2 ^ k) == 0) ≡ true) ↔ (bit w k ≡ 0)
bit_clear w k = (
  λ h. elim (Bool-cases (bit w k == 0)) [ inl e ↦ ground arith | inr ne ↦ absurd (clash h ne) ],
  λ h. rw (and_pow w k, h) (ground arith),
)
  where
    clash : (bit_and w (2 ^ k) == 0) ≡ true → (bit w k == 0) ≡ false → ⊥
    clash h ne =
        let one : bit w k ≡ 1 = ground (arith, bit_range w k) in
        let p : bit_and w (2 ^ k) ≡ 1 * 2 ^ k = rw (← one) (and_pow w k) in
        ground (arith, one-le-pow k 2)
