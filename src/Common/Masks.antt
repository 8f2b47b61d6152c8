-- ===== src/Common/Masks.antt =====
-- Masks and `|` on words: pages and offsets, low and high bits, and the entries of page tables.
use munux.Common.{
  ℕ, zero, suc, ◌+◌, ◌-◌, ◌*◌, ◌/◌, ◌%◌, ◌^◌, ◌<◌, ◌≡◌, sym, ap, ◌∙◌, bit_and, bit_or, arith,
}
use Prim.Native.Nat.{bit_or-bitwise}
use munux.Common.Bits.{and_low, or_low, or_zero, and_zero, and_ones}
use native.Mathlib.Nat.{pow-suc, mul_assoc, one-le-pow}

twice : (a k : ℕ) → a * 2 ^ suc k ≡ a * 2 ^ k * 2
twice a k = rw (pow-suc 2 k) (sym (mul_assoc a (2 ^ k) 2))

-- A number of `k` bits goes into zeros by `|` as by a sum.
pub or-low_bits : (k a b : ℕ) → b < 2 ^ k → bit_or (a * 2 ^ k) b ≡ a * 2 ^ k + b
or-low_bits zero a b h = let e : b ≡ 0 = omega arith in rw (e, or_zero) (omega arith)
or-low_bits (suc k) a b h =
    let half : a * 2 ^ k * 2 / 2 ≡ a * 2 ^ k = omega arith in
    let rest : bit_or (a * 2 ^ k * 2 / 2) (b / 2) ≡ a * 2 ^ k + b / 2 =
      rw half (or-low_bits k a (b / 2) (omega (arith, pow-suc 2 k))) in
    rw (twice a k) (omega (arith, or_low (a * 2 ^ k * 2) b, rest))

-- A mask whose low `k` bits are clear drops what a word has there.
pub and-high_mask :
    (k a b mask : ℕ) → b < 2 ^ k → bit_and (a * 2 ^ k + b) (mask * 2 ^ k) ≡ bit_and a mask * 2 ^ k
and-high_mask zero a b mask h =
    let whole : a * 2 ^ 0 + b ≡ a = omega arith in
    let same : mask * 2 ^ 0 ≡ mask = omega arith in rw (whole, same) (omega arith)
and-high_mask (suc k) a b mask h =
    let half : (a * 2 ^ k * 2 + b) / 2 ≡ a * 2 ^ k + b / 2 = omega arith in
    let half_mask : mask * 2 ^ k * 2 / 2 ≡ mask * 2 ^ k = omega arith in
    let rest : bit_and ((a * 2 ^ k * 2 + b) / 2) (mask * 2 ^ k * 2 / 2) ≡ bit_and a mask * 2 ^ k =
      rw (half, half_mask) (and-high_mask k a (b / 2) mask (omega (arith, pow-suc 2 k))) in
    rw (twice a k, twice mask k, twice (bit_and a mask) k)
      (omega (arith, and_low (a * 2 ^ k * 2 + b) (mask * 2 ^ k * 2), rest))

-- A mask of the low `k` bits keeps what a word has there.
pub and-low_bits : (k a b : ℕ) → b < 2 ^ k → bit_and (a * 2 ^ k + b) (2 ^ k - 1) ≡ b
and-low_bits zero a b h = rw and_zero (omega arith)
and-low_bits (suc k) a b h =
    let half : (a * 2 ^ k * 2 + b) / 2 ≡ a * 2 ^ k + b / 2 = omega arith in
    let half_mask : (2 ^ suc k - 1) / 2 ≡ 2 ^ k - 1 = omega (arith, pow-suc 2 k) in
    let odd : (2 ^ suc k - 1) % 2 ≡ 1 = omega (arith, pow-suc 2 k, one-le-pow k 2) in
    let rest : bit_and ((a * 2 ^ k * 2 + b) / 2) ((2 ^ suc k - 1) / 2) ≡ b / 2 =
      rw (half, half_mask) (and-low_bits k a (b / 2) (omega (arith, pow-suc 2 k))) in
    rw (twice a k) (omega (arith, and_low (a * 2 ^ k * 2 + b) (2 ^ suc k - 1), rest, odd))

split_12 : (w : ℕ) → w / 4096 * 2 ^ 12 + w % 4096 ≡ w
split_12 w = omega arith

pub and-offset : (w : ℕ) → bit_and w 0xfff ≡ w % 4096
and-offset w =
    sym (ap (λ x. bit_and x 0xfff) (split_12 w))
    ∙ and-low_bits 12 (w / 4096) (w % 4096) (omega arith)

pub and-index : (w : ℕ) → bit_and w 0x3ff ≡ w % 1024
and-index w =
    let split : w / 1024 * 2 ^ 10 + w % 1024 ≡ w = omega arith in
    sym (ap (λ x. bit_and x 0x3ff) split) ∙ and-low_bits 10 (w / 1024) (w % 1024) (omega arith)

pub and-one : (w : ℕ) → bit_and w 1 ≡ w % 2
and-one w =
    let split : w / 2 * 2 ^ 1 + w % 2 ≡ w = omega arith in
    sym (ap (λ x. bit_and x 1) split) ∙ and-low_bits 1 (w / 2) (w % 2) (omega arith)

-- The page of a 32-bit address.
pub and-page_mask : (w : ℕ) → w < 2 ^ 32 → bit_and w 0xffff_f000 ≡ w / 4096 * 4096
and-page_mask w h =
    sym (ap (λ x. bit_and x 0xffff_f000) (split_12 w))
    ∙ and-high_mask 12 (w / 4096) (w % 4096) 0xf_ffff (omega arith)
    ∙ ap (λ x. x * 2 ^ 12) (and_ones 20 (w / 4096) (omega arith))

-- What `map_page` writes for a page: its address and the flags, side by side.
pub page_entry :
    (p flags : ℕ)
    → p < 2 ^ 32
    → flags < 4096
    → bit_or (bit_and p 0xffff_f000) flags ≡ p / 4096 * 4096 + flags
page_entry p flags h f = rw (and-page_mask p h) (or-low_bits 12 (p / 4096) flags f)

-- `|` with a number of `k` bits leaves the bits above.
or-high : (k a b c : ℕ) → b < 2 ^ k → c < 2 ^ k → bit_or (a * 2 ^ k + b) c ≡ a * 2 ^ k + bit_or b c
or-high zero a b c h g =
    let e : b ≡ 0 = omega arith in
    let e' : c ≡ 0 = omega arith in rw (e, e', or_zero) (omega (arith, or_zero 0))
or-high (suc k) a b c h g =
    let half : (a * 2 ^ k * 2 + b) / 2 ≡ a * 2 ^ k + b / 2 = omega arith in
    let rest : bit_or ((a * 2 ^ k * 2 + b) / 2) (c / 2) ≡ a * 2 ^ k + bit_or (b / 2) (c / 2) =
      rw half
        (or-high k a (b / 2) (c / 2) (omega (arith, pow-suc 2 k)) (omega (arith, pow-suc 2 k))) in
    rw (twice a k) (omega (arith, or_low (a * 2 ^ k * 2 + b) c, or_low b c, rest))

or-lt : (k b c : ℕ) → b < 2 ^ k → c < 2 ^ k → bit_or b c < 2 ^ k
or-lt zero b c h g =
    let e : b ≡ 0 = omega arith in
    let e' : c ≡ 0 = omega arith in rw (e, e') (omega (arith, or_zero 0))
or-lt (suc k) b c h g = omega (
  arith,
  pow-suc 2 k,
  or_low b c,
  or-lt k (b / 2) (c / 2) (omega (arith, pow-suc 2 k)) (omega (arith, pow-suc 2 k)),
)

-- What `map_page` writes for a new page table at the frame `a`: the present bit is set, and the
-- page part is the frame.
pub table_entry :
    (a flags : ℕ)
    → flags < 4096
    → let e = bit_or (bit_or (bit_or (a * 4096) 1) 2) flags in (e / 4096 ≡ a) × (e % 2 ≡ 1)
table_entry a flags h =
    let one : bit_or (a * 4096) 1 ≡ a * 4096 + 1 = or-low_bits 12 a 1 (omega arith) in
    let two : bit_or (a * 4096 + 1) 2 ≡ a * 4096 + 3 =
      or-high 12 a 1 2 (omega arith) (omega arith) in
    let all : bit_or (a * 4096 + 3) flags ≡ a * 4096 + bit_or 3 flags =
      or-high 12 a 3 flags (omega arith) h in
    let small : bit_or 3 flags < 4096 = or-lt 12 3 flags (omega arith) h in
    rw (one, two, all) (omega arith, omega (arith, or_low 3 flags))

zero_or : (b : ℕ) → bit_or 0 b ≡ b
zero_or b = omega (arith, bit_or-bitwise 0 b)

-- The same with the low part in front.
pub or-high_bits : (k a b : ℕ) → b < 2 ^ k → bit_or b (a * 2 ^ k) ≡ a * 2 ^ k + b
or-high_bits zero a b h = let e : b ≡ 0 = omega arith in rw (e, zero_or) (omega arith)
or-high_bits (suc k) a b h =
    let half : a * 2 ^ k * 2 / 2 ≡ a * 2 ^ k = omega arith in
    let rest : bit_or (b / 2) (a * 2 ^ k * 2 / 2) ≡ a * 2 ^ k + b / 2 =
      rw half (or-high_bits k a (b / 2) (omega (arith, pow-suc 2 k))) in
    rw (twice a k) (omega (arith, or_low b (a * 2 ^ k * 2), rest))
