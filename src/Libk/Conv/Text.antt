-- ===== src/Libk/Conv/Text.antt =====
-- The text that `utoa` and `itoa` leave in the buffer.
use mathlib.Core.Option
use munux.Common.{
  ℕ, ◌+◌, ◌-◌, ◌^◌, ◌≤◌, ◌<◌, ◌≡◌, ◌≢◌, refl, ap, inl, inr, true, false, ◌&&◌, ◌||◌, Option, none,
  some, List, [], ◌∷◌, ◌==◌, ltb, leb, if◌then◌else◌, get_or, get_or-cons, length, All, arith,
  Bool-cases,
}
use munux.Common.Memory.{Memory, update}
use munux.Libk.Conv.{digits, store_text, utoa, itoa, negate, is_negative}
use munux.Libk.Conv.Digits.{IsDigitOf, NoLeadingZero, value_of, digits_lem}

-- The string `text` with its NUL stands at index `p`, and all else is as in `m`.
abbrev pub Holds : Memory → Memory → ℕ → List ℕ → Type 0
Holds m' m p text =
    (q : ℕ)
    → m' q ≡ (
        if leb p q && ltb q (p + length text)
        then get_or text (q - p) 0
        else if q == p + length text
        then 0
        else m q)

pub store_text-Holds : (text : List ℕ) (p : ℕ) (m : Memory) → Holds (store_text text p m) m p text
unfolding store_text
store_text-Holds [] p m q = ground arith
store_text-Holds (c ∷ rest) p m q =
    ground
      (arith, store_text-Holds rest (p + 1) (update m p c) q, get_or-cons c rest (q - p) 0, shift)
  where
    shift : get_or rest (q - p - 1) 0 ≡ get_or rest (q - (p + 1)) 0
    shift = ap (λ k. get_or rest k 0) (omega arith)

-- `utoa` writes the digits of the value and a NUL, at most 33 bytes from `buf` on, and nothing
-- else, if the base is from 2 to 16; otherwise it writes a NUL alone.
pub utoa_lem :
    (value buf base : ℕ) (m : Memory)
    → value < 2 ^ 32
    → (m' : Memory) × (text : List ℕ) × (utoa value buf base m ≡ some m')
      × Holds m' m buf text
      × (length text ≤ 32)
      × (if (leb 2 base && leb base 16)
          then (value_of base text ≡ value)
            × All (IsDigitOf base) text
            × (1 ≤ length text)
            × (value ≢ 0 → NoLeadingZero text)
          else (text ≡ []))
unfolding utoa
utoa_lem value buf base m small = elim (Bool-cases (ltb base 2 || ltb 16 base)) [
  | inl out ↦
      let refused : (leb 2 base && leb base 16) ≡ false = ground arith in
      (update m buf 0, [], rw out, λ q. ground arith, omega arith, rw refused)
  | inr inside ↦
      let accepted : (leb 2 base && leb base 16) ≡ true = ground arith in
      let (text, e, value_eq, pos, len, all, first) =
        digits_lem value base (ground arith) (ground arith) small in
      (
        store_text text buf m,
        text,
        rw (inside, e),
        store_text-Holds text buf m,
        len,
        rw accepted (value_eq, all, pos, first),
      )
]

-- The text of a signed number: a sign for a negative one in base 10, then the magnitude.
unfoldable pub itoa_text : (value base : ℕ) → Option (List ℕ)
itoa_text value base =
    if base == 10 && is_negative value
    then Option.map (λ text. b'-' ∷ text) (digits (negate value) 10)
    else digits value base

pub itoa-store_text :
    (value buf base : ℕ) (m : Memory)
    → 2 ≤ base
    → base ≤ 16
    → itoa value buf base m ≡ Option.map (λ text. store_text text buf m) (itoa_text value base)
unfolding itoa utoa itoa_text store_text
itoa-store_text value buf base m lo hi =
    let inside : (ltb base 2 || ltb 16 base) ≡ false = ground arith in
    elim (Bool-cases (base == 10 && is_negative value)) [
      | inl neg ↦ rw neg (map-map (digits (negate value) 10))
      | inr pos ↦ rw (pos, inside)
    ]
  where
    map-map :
        (o : Option (List ℕ))
        → Option.map (λ text. store_text text (buf + 1) (update m buf b'-')) o
          ≡ Option.map (λ text. store_text text buf m) (Option.map (λ text. b'-' ∷ text) o)
    map-map none = refl
    map-map (some text) = refl
