-- ===== src/Drivers/Keyboard/Ring.antt =====
-- The ring of keyboard.c is a queue of at most 255 characters that drops what does not fit.
use munux.Common.{
  ℕ, zero, suc, ◌+◌, ◌-◌, ◌%◌, ◌^◌, ◌<◌, ◌≡◌, ◌≢◌, ◌↔◌, refl, sym, ap, ◌∙◌, inl, inr, false, none,
  some, List, [], ◌∷◌, ◌++◌, length, ◌==◌, if◌then◌else◌, arith, Bool-cases,
}
use mathlib.Core.Path.{ap₂}
use munux.Common.Memory.{Memory, update}
use munux.Drivers.Keyboard.{Keyboard, buffer_put, handler, init, getchar, available, flush}

-- Both positions lie inside the 256 bytes of the buffer.
pub record IsValid (k : Keyboard) : Type 0 where
  pub read_in : k.read_pos < 256
  pub write_in : k.write_pos < 256

-- The `n` characters from position `p` on, round the end of the buffer.
abbrev pub chars : Memory → ℕ → ℕ → List ℕ
chars buffer p zero = []
chars buffer p (suc n) = buffer p ∷ chars buffer ((p + 1) % 256) n

unfoldable pub stored : Keyboard → ℕ
stored k = (k.write_pos + 256 - k.read_pos) % 256

-- The characters that wait to be read, oldest first.
unfoldable pub contents : Keyboard → List ℕ
contents k = chars k.buffer k.read_pos (stored k)

length-chars : (b : Memory) (p n : ℕ) → length (chars b p n) ≡ n
length-chars b p zero = refl
length-chars b p (suc n) = ap suc (length-chars b ((p + 1) % 256) n)

pub length-contents : (k : Keyboard) → length (contents k) ≡ stored k
unfolding contents
length-contents k = length-chars k.buffer k.read_pos (stored k)

chars-update :
    (b : Memory) (c p n i : ℕ)
    → p < 256
    → n < 256
    → i ≡ (p + n) % 256
    → chars (update b i c) p (suc n) ≡ chars b p n ++ c ∷ []
chars-update b c p zero i hp hn e = ground arith
chars-update b c p (suc n) i hp hn e =
    ap₂ ◌∷◌ (ground arith)
      (chars-update b c ((p + 1) % 256) n i (omega arith) (omega arith) (omega arith))

chars-count : (b : Memory) (p n m : ℕ) → n ≡ m → chars b p n ≡ chars b p m
chars-count b p n m e = rw e

-- A queue of at most 255 characters: a character that does not fit is dropped.
unfoldable pub enqueue : ℕ → List ℕ → List ℕ
enqueue c q = if length q == 255 then q else q ++ c ∷ []

enqueue-full : (c : ℕ) (q : List ℕ) → length q ≡ 255 → enqueue c q ≡ q
unfolding enqueue
enqueue-full c q e = ground arith

enqueue-room : (c : ℕ) (q : List ℕ) → length q ≢ 255 → enqueue c q ≡ q ++ c ∷ []
unfolding enqueue
enqueue-room c q e = ground arith

-- `keyboard_buffer_put` keeps the positions in range, and appends the character unless 255 wait
-- already; then it changes nothing.
pub buffer_put_lem :
    {k : Keyboard} (c : ℕ)
    → IsValid k
    → IsValid (buffer_put c k) × (contents (buffer_put c k) ≡ enqueue c (contents k))
unfolding buffer_put
buffer_put_lem {k} c v = elim (Bool-cases ((k.write_pos + 1) % 2 ^ 32 % 256 == k.read_pos)) [
  | inl full ↦
      rw full (v, sym (enqueue-full c (contents k) (length-contents k ∙ full_count (ground arith))))
  | inr room ↦ rw room (
    record { read_in = v.read_in; write_in = omega arith },
    unfold contents in
        (chars-count _ k.read_pos _ (suc (stored k)) (next_count (ground arith))
          ∙ chars-update k.buffer c k.read_pos (stored k) k.write_pos v.read_in
              (unfold stored in omega arith) (unfold stored in omega arith))
        ∙ sym
            (enqueue-room c (contents k) (λ e. count (ground arith) (sym (length-contents k) ∙ e))),
  )
]
  where
    full_count : (k.write_pos + 1) % 2 ^ 32 % 256 ≡ k.read_pos → stored k ≡ 255
    full_count h = unfold stored in omega arith

    next_count :
        (k.write_pos + 1) % 2 ^ 32 % 256 ≢ k.read_pos
        → stored (record k {
          buffer = update k.buffer k.write_pos c;
          write_pos = (k.write_pos + 1) % 2 ^ 32 % 256;
        })
          ≡ suc (stored k)
    next_count h = unfold stored in omega arith

    count : (k.write_pos + 1) % 2 ^ 32 % 256 ≢ k.read_pos → stored k ≢ 255
    count h = unfold stored in omega arith

-- Reading the oldest character takes it off the queue.
read_next :
    {k : Keyboard}
    → IsValid k
    → k.read_pos ≢ k.write_pos
    → let k' = record k { read_pos = (k.read_pos + 1) % 2 ^ 32 % 256 } in
      IsValid k' × (contents k ≡ k.buffer k.read_pos ∷ contents k')
read_next {k} v ne = (
  record { read_in = omega arith; write_in = v.write_in },
  unfold contents in
      chars-count k.buffer k.read_pos (stored k) (suc (stored k')) (unfold stored in omega arith)
      ∙ ap (λ p. k.buffer k.read_pos ∷ chars k.buffer p (stored k')) (omega arith),
)
  where
    k' : Keyboard
    k' = record k { read_pos = (k.read_pos + 1) % 2 ^ 32 % 256 }

contents-empty : (k : Keyboard) → k.read_pos ≡ k.write_pos → contents k ≡ []
unfolding contents
contents-empty k e = chars-count k.buffer k.read_pos (stored k) 0 (unfold stored in omega arith)

getchar-ready :
    (later : List ℕ) (k : Keyboard)
    → k.read_pos ≢ k.write_pos
    → getchar later k
      ≡ some (k.buffer k.read_pos, later, record k { read_pos = (k.read_pos + 1) % 2 ^ 32 % 256 })
unfolding getchar
getchar-ready [] k ne = ground arith
getchar-ready (scancode ∷ later) k ne =
    let test : (k.read_pos == k.write_pos) ≡ false = ground arith in rw test

-- `keyboard_getchar` on a queue that is not empty returns its oldest character at once and leaves
-- the rest, whatever interrupts are to come.
pub getchar-cons :
    {k : Keyboard} (later : List ℕ) (c : ℕ) (q : List ℕ)
    → IsValid k
    → contents k ≡ c ∷ q
    → (k' : Keyboard) × (getchar later k ≡ some (c, later, k')) × IsValid k' × (contents k' ≡ q)
getchar-cons {k} later c q v e =
    let ne : k.read_pos ≢ k.write_pos = λ p. cc (contents-empty k p, e) in
    let (v', split) = read_next v ne in
    let both = sym split ∙ e in
    (
      record k { read_pos = (k.read_pos + 1) % 2 ^ 32 % 256 },
      getchar-ready later k ne ∙ cc both,
      v',
      cc both,
    )

-- `keyboard_getchar` on an empty queue handles the next scan code and tries again; with no scan
-- code left it still waits.
pub getchar-empty :
    {k : Keyboard} (scancode : ℕ) (later : List ℕ)
    → IsValid k
    → contents k ≡ []
    → (getchar [] k ≡ none) × (getchar (scancode ∷ later) k ≡ getchar later (handler scancode k))
unfolding getchar
getchar-empty {k} scancode later v e = elim (Bool-cases (k.read_pos == k.write_pos)) [
  | inl empty ↦ rw empty (refl, refl)
  | inr ready ↦ absurd (cc (e, (read_next v (ground arith)).1))
]

-- `keyboard_available` says whether a character waits.
pub available_lem : {k : Keyboard} → IsValid k → (available k ≡ false) ↔ (contents k ≡ [])
unfolding available
available_lem {k} v = elim (Bool-cases (k.read_pos == k.write_pos)) [
  | inl empty ↦ rw empty (λ h. contents-empty k (ground arith), λ e. refl)
  | inr ready ↦ rw ready (λ h. cc, λ e. absurd (cc (e, (read_next v (ground arith)).1)))
]

-- `keyboard_init` and `keyboard_flush` empty the queue, whatever the state.
pub empties :
    (k : Keyboard)
    → (IsValid (init k) × (contents (init k) ≡ []))
      × (IsValid (flush k) × (contents (flush k) ≡ []))
unfolding init flush contents stored
empties k = (
  (record { read_in = omega arith; write_in = omega arith }, refl),
  (record { read_in = omega arith; write_in = omega arith }, refl),
)
