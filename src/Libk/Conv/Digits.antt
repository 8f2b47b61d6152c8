-- ===== src/Libk/Conv/Digits.antt =====
-- The digits that `utoa` produces.
use mathlib.Core.List.{append-nil, append_assoc}
use native.Mathlib.Nat.{div-lt_iff_lt-mul, div-add-mod', pow-suc, mod-lt}
use munux.Common.{
  ℕ, zero, suc, ◌+◌, ◌-◌, ◌*◌, ◌/◌, ◌%◌, ◌^◌, ◌≤◌, ◌<◌, ◌≡◌, ◌≢◌, refl, sym, ap, ◌∙◌, inl, inr,
  true, some, List, [], ◌∷◌, ◌++◌, ◌==◌, ltb, leb, if◌then◌else◌, get_or, length, length-append,
  All, All-append, every_below, of_every_below, ==_iff, arith, Bool-cases,
}
use munux.Libk.Conv.{digit_chars, digit_loop, digits}

-- The number that a digit stands for.
unfoldable pub digit_value : ℕ → ℕ
digit_value c = if leb c b'9' then c - b'0' else c - b'a' + 10

-- The number that a row of digits stands for, behind digits worth `acc`.
unfoldable pub value_from : (base acc : ℕ) → List ℕ → ℕ
value_from base acc [] = acc
value_from base acc (c ∷ rest) = value_from base (acc * base + digit_value c) rest

abbrev pub value_of : ℕ → List ℕ → ℕ
value_of base text = value_from base 0 text

pub value_from-append :
    (base acc : ℕ) (xs ys : List ℕ)
    → value_from base acc (xs ++ ys) ≡ value_from base (value_from base acc xs) ys
unfolding value_from
value_from-append base acc [] ys = refl
value_from-append base acc (x ∷ xs) ys = value_from-append base (acc * base + digit_value x) xs ys

-- One of the first `base` digits.
abbrev pub IsDigitOf : ℕ → ℕ → Type 0
IsDigitOf base c = (d : ℕ) × (d < base) × (c ≡ get_or digit_chars d 0)

abbrev pub NoLeadingZero : List ℕ → Type 0
NoLeadingZero [] = Unit
NoLeadingZero (c ∷ rest) = c ≢ b'0'

digit_table : every_below 16 (λ d. digit_value (get_or digit_chars d 0) == d) ≡ true
unfolding every_below digit_value
digit_table = refl

pub digit_value_lem : (d : ℕ) → d < 16 → digit_value (get_or digit_chars d 0) ≡ d
digit_value_lem d h =
    (==_iff _ _).0
      (of_every_below 16 (λ d. digit_value (get_or digit_chars d 0) == d) d digit_table h)

NoLeadingZero-append :
    (xs : List ℕ) (c : ℕ) → NoLeadingZero xs → (xs ≡ [] → c ≢ b'0') → NoLeadingZero (xs ++ c ∷ [])
NoLeadingZero-append [] c h k = k refl
NoLeadingZero-append (x ∷ xs) c h k = h

length_pos : (xs : List ℕ) → (xs ≡ [] → ⊥) → 1 ≤ length xs
length_pos [] h = absurd (h refl)
length_pos (x ∷ xs) h = omega arith

-- What the loop has put in front of `tmp`.
record Produced (value base bits : ℕ) (text : List ℕ) : Type 0 where
  value_eq : value_of base text ≡ value
  size : length text ≤ bits
  all_digits : All (IsDigitOf base) text
  first : NoLeadingZero text
  nonempty : text ≡ [] → value ≡ 0

Produced-nil : (base bits value : ℕ) → value ≡ 0 → Produced value base bits []
unfolding value_from
Produced-nil base bits value e = record {
  value_eq = sym e;
  size = omega arith;
  all_digits = tt;
  first = tt;
  nonempty = λ _. e;
}

-- One round of the loop: the lowest digit goes behind those of the quotient.
Produced-append :
    (base bits value : ℕ) (text : List ℕ)
    → 2 ≤ base
    → base ≤ 16
    → 0 < value
    → Produced (value / base) base bits text
    → Produced value base (suc bits) (text ++ get_or digit_chars (value % base) 0 ∷ [])
Produced-append base bits value text lo hi pos p = record {
  value_eq =
      value_from-append base 0 text (c ∷ [])
      ∙ (unfold value_from in
          rw (p.value_eq, digit_value_lem d (omega arith)) (div-add-mod' value base));
  size = omega (arith, p.size, length-append text (c ∷ []));
  all_digits = All-append (IsDigitOf base) text (c ∷ []) p.all_digits ((d, below, refl), tt);
  first = NoLeadingZero-append text c p.first (λ e. digit_pos (p.nonempty e));
  nonempty = λ e. absurd (ends text e);
}
  where
    d : ℕ
    d = value % base

    c : ℕ
    c = get_or digit_chars d 0

    below : d < base
    below = mod-lt value (omega arith)

    ends : (xs : List ℕ) → xs ++ c ∷ [] ≡ [] → ⊥
    ends [] e = cc
    ends (x ∷ xs) e = cc

    digit_pos : value / base ≡ 0 → c ≢ b'0'
    digit_pos zero_high e =
        let same : d ≡ value = omega (arith, rw zero_high at (div-add-mod' value base)) in
        let v : digit_value c ≡ d = digit_value_lem d (omega arith) in
        let w : digit_value b'0' ≡ 0 = digit_value_lem 0 (omega arith) in
        absurd (omega (arith, sym (ap digit_value e) ∙ v, w))

-- With room for as many digits as the number has bits, the loop ends.
digit_loop_lem :
    (room bits value base : ℕ) (tmp : List ℕ)
    → 2 ≤ base
    → base ≤ 16
    → value < 2 ^ bits
    → bits ≤ room
    → (text : List ℕ) × (digit_loop room value base tmp ≡ some (text ++ tmp))
      × Produced value base bits text
unfolding digit_loop
digit_loop_lem zero bits value base tmp lo hi small enough =
    let e : bits ≡ 0 = omega arith in
    let small' : value < 2 ^ 0 = rw e at small in
    ([], ground arith, Produced-nil base bits value (omega arith))
digit_loop_lem (suc room) zero value base tmp lo hi small enough =
    ([], ground arith, Produced-nil base 0 value (omega arith))
digit_loop_lem (suc room) (suc bits) value base tmp lo hi small enough =
    elim (Bool-cases (ltb 0 value)) [
      | inr none_left ↦ ([], rw none_left, Produced-nil base (suc bits) value (ground arith))
      | inl more ↦
          let c = get_or digit_chars (value % base) 0 in
          let (text, e, p) =
            digit_loop_lem room bits (value / base) base (c ∷ tmp) lo hi
              (quotient_small (omega arith)) (omega arith) in
          (
            text ++ c ∷ [],
            rw more (e ∙ ap some (sym (append_assoc text (c ∷ []) tmp))),
            Produced-append base bits value text lo hi (ground arith) p,
          )
    ]
  where
    quotient_small : 0 < base → value / base < 2 ^ bits
    quotient_small pos = (div-lt_iff_lt-mul pos).1 (grind (arith, pow-suc 2 bits))

-- For every base from 2 to 16 `utoa` writes between one and 32 bytes to `tmp`; they are digits of
-- the base, they stand for the value, and the first is `0` only for the value 0.
pub digits_lem :
    (value base : ℕ)
    → 2 ≤ base
    → base ≤ 16
    → value < 2 ^ 32
    → (text : List ℕ) × (digits value base ≡ some text)
      × (value_of base text ≡ value)
      × (1 ≤ length text)
      × (length text ≤ 32)
      × All (IsDigitOf base) text
      × (value ≢ 0 → NoLeadingZero text)
unfolding digits
digits_lem value base lo hi small = elim (Bool-cases (value == 0)) [
  | inl e ↦ (
    b'0' ∷ [],
    rw e,
    unfold value_from in
        (let v : digit_value b'0' ≡ 0 = digit_value_lem 0 (omega arith) in ground arith),
    omega arith,
    omega arith,
    ((0, omega arith, refl), tt),
    λ ne. absurd (ne (ground arith)),
  )
  | inr ne ↦
      let (text, e, p) = digit_loop_lem 33 32 value base [] lo hi small (omega arith) in
      (
        text,
        rw ne (e ∙ ap some (append-nil text)),
        p.value_eq,
        length_pos text (λ none_left. absurd (ground (arith, p.nonempty none_left))),
        p.size,
        p.all_digits,
        λ _. p.first,
      )
]
