-- ===== src/Drivers/Keyboard/Decode.antt =====
-- What `keyboard_handler` makes of the scan codes.
use munux.Common.{
  ℕ, ◌+◌, ◌-◌, ◌<◌, ◌≡◌, ◌≢◌, refl, ◌∙◌, ◌⊎◌, inl, inr, Bool, true, false, not, get_or, ◌==◌, ◌&&◌,
  ◌||◌, if◌then◌else◌, ltb, leb, arith, Bool-cases, bit_and, every_below, of_every_below, ==_iff,
}
use mathlib.Core.Bool.{xor}
use munux.Drivers.Keyboard.{Keyboard, buffer_put, to_ascii, type_key, handle_key, handler}
use munux.Drivers.Keyboard.Layout.{scancode_to_ascii}
use munux.Drivers.Keyboard.Ring.{IsValid, contents, stored, enqueue, buffer_put_lem}

-- The contents depend on the ring alone.
same_ring :
    (k k' : Keyboard)
    → k'.buffer ≡ k.buffer
    → k'.read_pos ≡ k.read_pos
    → k'.write_pos ≡ k.write_pos
    → IsValid k
    → IsValid k' × (contents k' ≡ contents k)
unfolding contents stored
same_ring k k' b r w v = (record { read_in = rw r v.read_in; write_in = rw w v.write_in }, cc)

-- One scan code types at most one character.
abbrev pub TypesAtMost : ℕ → Keyboard → Keyboard → Type 0
TypesAtMost scancode k k' =
    (contents k' ≡ contents k)
    ⊎ ((c : ℕ) × (c ≢ 0)
        × (bit_and scancode 0x80 ≡ 0)
        × (k.extended ≡ false)
        × (contents k' ≡ enqueue c (contents k)))

type_key_lem :
    {k : Keyboard} (scancode : ℕ)
    → IsValid k
    → IsValid (type_key scancode k)
      × ((contents (type_key scancode k) ≡ contents k)
          ⊎ ((c : ℕ) × (c ≢ 0) × (contents (type_key scancode k) ≡ enqueue c (contents k))))
unfolding type_key
type_key_lem {k} scancode v = elim (Bool-cases (ltb scancode 89)) [
  | inr high ↦ rw high (v, inl refl)
  | inl low ↦ rw low (elim (Bool-cases (to_ascii scancode k.shift k.caps == 0)) [
    | inl nul ↦ rw nul (v, inl refl)
    | inr char ↦ rw char (
        let (w, e) = buffer_put_lem (to_ascii scancode k.shift k.caps) v in
        (w, inr (to_ascii scancode k.shift k.caps, ground arith, e)))
  ])
]

handle_key_lem :
    {k : Keyboard} (pressed : Bool) (scancode : ℕ)
    → IsValid k
    → IsValid (handle_key pressed scancode k)
      × ((contents (handle_key pressed scancode k) ≡ contents k)
          ⊎ ((c : ℕ) × (c ≢ 0)
              × (pressed ≡ true)
              × (contents (handle_key pressed scancode k) ≡ enqueue c (contents k))))
unfolding handle_key
handle_key_lem {k} pressed scancode v = elim (Bool-cases (scancode == 0x2a || scancode == 0x36)) [
  | inl t ↦ rw t (quiet (record k { shift = pressed }) refl refl refl)
  | inr f1 ↦ rw f1 (elim (Bool-cases (scancode == 0x1d)) [
    | inl t ↦ rw t (quiet (record k { ctrl = pressed }) refl refl refl)
    | inr f2 ↦ rw f2 (elim (Bool-cases (scancode == 0x38)) [
      | inl t ↦ rw t (quiet (record k { alt = pressed }) refl refl refl)
      | inr f3 ↦ rw f3 (elim (Bool-cases (scancode == 0x3a && pressed)) [
        | inl t ↦ rw t (quiet (record k { caps = not k.caps }) refl refl refl)
        | inr f4 ↦ rw f4 (ordinary pressed)
      ])
    ])
  ])
]
  where
    quiet :
        (k' : Keyboard)
        → k'.buffer ≡ k.buffer
        → k'.read_pos ≡ k.read_pos
        → k'.write_pos ≡ k.write_pos
        → IsValid k'
          × ((contents k' ≡ contents k)
              ⊎ ((c : ℕ) × (c ≢ 0) × (pressed ≡ true) × (contents k' ≡ enqueue c (contents k))))
    quiet k' b r w = let (v', e) = same_ring k k' b r w v in (v', inl e)

    ordinary :
        (p : Bool)
        → let k' = if p then type_key scancode k else k in
          IsValid k'
          × ((contents k' ≡ contents k)
              ⊎ ((c : ℕ) × (c ≢ 0) × (p ≡ true) × (contents k' ≡ enqueue c (contents k))))
    ordinary false = (v, inl refl)
    ordinary true =
        let (w, e) = type_key_lem scancode v in
        (w, elim e [ inl same ↦ inl same | inr (c, ne, got) ↦ inr (c, ne, refl, got) ])

-- Every scan code keeps the positions of the ring in range and adds at most one character, which
-- is never NUL, and only when a key is pressed (bit 7 clear) and no 0xE0 prefix is pending.
pub handler-TypesAtMost :
    {k : Keyboard} (scancode : ℕ)
    → IsValid k
    → IsValid (handler scancode k) × TypesAtMost scancode k (handler scancode k)
unfolding handler
handler-TypesAtMost {k} scancode v = elim (Bool-cases (scancode == 0xe0)) [
  | inl prefix ↦ rw prefix (let (w, e) = same_ring k _ refl refl refl v in (w, inl e))
  | inr plain ↦ rw plain (behind k.extended refl)
]
  where
    behind :
        (e : Bool)
        → k.extended ≡ e
        → let k' =
            if e
            then record k { extended = false }
            else handle_key (bit_and scancode 0x80 == 0) (bit_and scancode 0x7f) k in
          IsValid k' × TypesAtMost scancode k k'
    behind true on = let (w, e) = same_ring k _ refl refl refl v in (w, inl e)
    behind false off =
        let (w, e) = handle_key_lem (bit_and scancode 128 == 0) (bit_and scancode 127) v in
        (
          w,
          elim e [
            | inl same ↦ inl same
            | inr (c, ne, make, got) ↦ inr (c, ne, ground arith, off, got)
          ],
        )

-- The byte after a prefix 0xE0, unless it is a prefix too, is swallowed: nothing but the flag of
-- the prefix differs from the state before the two bytes.
pub handler_extended :
    (k : Keyboard) (scancode : ℕ)
    → scancode ≢ 0xe0
    → handler scancode (handler 0xe0 k) ≡ record k { extended = false }
unfolding handler
handler_extended k scancode ne = ground arith

-- For the characters of the plain table: a letter is typed in upper case exactly when one of Shift
-- and Caps Lock is on, and for every other key Caps Lock makes no difference.
abbrev is_letter : ℕ → Bool
is_letter c = leb b'a' c && leb c b'z'

letter_table :
    (shift caps : Bool)
    → every_below 89 (λ scancode.
      let plain = get_or scancode_to_ascii scancode 0 in
      to_ascii scancode shift caps == (
        if is_letter plain
        then (if xor shift caps then plain - 32 else plain)
        else to_ascii scancode shift false))
      ≡ true
unfolding every_below to_ascii xor
letter_table true true = refl
letter_table true false = refl
letter_table false true = refl
letter_table false false = refl

pub to_ascii_letter :
    (scancode : ℕ) (shift caps : Bool)
    → scancode < 89
    → let plain = get_or scancode_to_ascii scancode 0 in
      to_ascii scancode shift caps ≡ (
        if is_letter plain
        then (if xor shift caps then plain - 32 else plain)
        else to_ascii scancode shift false)
to_ascii_letter scancode shift caps h =
    (==_iff _ _).0 (of_every_below 89 _ scancode (letter_table shift caps) h)

-- Pressing and releasing a key that is no modifier adds the character of the key, if it has one,
-- and leaves the modifiers as they were.
abbrev is_modifier : ℕ → Bool
is_modifier scancode =
    (scancode == 0x2a || scancode == 0x36)
    || (scancode == 0x1d || (scancode == 0x38 || scancode == 0x3a))

code_table :
    every_below 89 (λ c.
      ((bit_and c 0x80 == 0) && (bit_and c 0x7f == c))
      && ((bit_and (c + 0x80) 0x80 == 0x80) && (bit_and (c + 0x80) 0x7f == c)))
    ≡ true
unfolding every_below
code_table = refl

-- Make and break codes of a key, split into bit 7 and the rest.
code_bits :
    (c : ℕ)
    → c < 89
    → (bit_and c 0x80 ≡ 0)
      × (bit_and c 0x7f ≡ c)
      × (bit_and (c + 0x80) 0x80 ≡ 0x80)
      × (bit_and (c + 0x80) 0x7f ≡ c)
code_bits c h =
    let t =
      of_every_below 89
        (λ c.
          ((bit_and c 0x80 == 0) && (bit_and c 0x7f == c))
          && ((bit_and (c + 0x80) 0x80 == 0x80) && (bit_and (c + 0x80) 0x7f == c)))
        c code_table h in
    ground arith

module _ (k : Keyboard) (scancode : ℕ) (off : k.extended ≡ false) (low : scancode < 89) where
  handler_make : handler scancode k ≡ handle_key true scancode k
  unfolding handler
  handler_make =
      let b = code_bits scancode low in
      let plain : (scancode == 0xe0) ≡ false = ground arith in rw (plain, off, b.0, b.1)

  handler_break : handler (scancode + 0x80) k ≡ handle_key false scancode k
  unfolding handler
  handler_break =
      let b = code_bits scancode low in
      let plain : (scancode + 0x80 == 0xe0) ≡ false = ground arith in rw (plain, off, b.2, b.3)

handle_key_plain :
    (k : Keyboard) (scancode : ℕ) (pressed : Bool)
    → is_modifier scancode ≡ false
    → handle_key pressed scancode k ≡ (if pressed then type_key scancode k else k)
unfolding handle_key
handle_key_plain k scancode pressed plain = ground arith

-- The fields that typing leaves alone.
type_key_keeps :
    (k : Keyboard) (scancode : ℕ)
    → let k' = type_key scancode k in
      (k'.shift ≡ k.shift)
      × (k'.caps ≡ k.caps)
      × (k'.ctrl ≡ k.ctrl)
      × (k'.alt ≡ k.alt)
      × (k'.extended ≡ k.extended)
unfolding type_key buffer_put
type_key_keeps k scancode = ground arith

type_key_value :
    {k : Keyboard} (scancode : ℕ)
    → IsValid k
    → scancode < 89
    → let c = to_ascii scancode k.shift k.caps in
      IsValid (type_key scancode k)
      × (contents (type_key scancode k) ≡ (if c == 0 then contents k else enqueue c (contents k)))
unfolding type_key
type_key_value {k} scancode v low =
    let inside : ltb scancode 89 ≡ true = ground arith in
    rw inside (elim (Bool-cases (to_ascii scancode k.shift k.caps == 0)) [
      | inl nul ↦ rw nul (v, refl)
      | inr char ↦ rw char (buffer_put_lem (to_ascii scancode k.shift k.caps) v)
    ])

pub handler_stroke :
    {k : Keyboard} (scancode : ℕ)
    → IsValid k
    → k.extended ≡ false
    → scancode < 89
    → is_modifier scancode ≡ false
    → let k' = handler (scancode + 0x80) (handler scancode k) in
      let c = to_ascii scancode k.shift k.caps in
      IsValid k'
      × (contents k' ≡ (if c == 0 then contents k else enqueue c (contents k)))
      × (k'.shift ≡ k.shift)
      × (k'.caps ≡ k.caps)
      × (k'.ctrl ≡ k.ctrl)
      × (k'.alt ≡ k.alt)
      × (k'.extended ≡ false)
handler_stroke {k} scancode v off low plain =
    let e : handler (scancode + 0x80) (handler scancode k) ≡ type_key scancode k = strokes in
    let (w, got) = type_key_value scancode v low in
    let (sh, ca, ct, al, ex) = type_key_keeps k scancode in rw e (w, got, sh, ca, ct, al, ex ∙ off)
  where
    pressed : handler scancode k ≡ type_key scancode k
    pressed = handler_make k scancode off low ∙ handle_key_plain k scancode true plain

    strokes : handler (scancode + 0x80) (handler scancode k) ≡ type_key scancode k
    strokes = rw pressed (
        handler_break (type_key scancode k) scancode ((type_key_keeps k scancode).4 ∙ off) low
        ∙ handle_key_plain (type_key scancode k) scancode false plain)
