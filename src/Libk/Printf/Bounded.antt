-- ===== src/Libk/Printf/Bounded.antt =====
-- `kvsnprintf` into a buffer of any size is the cut of one unbounded text.
use munux.Common.{
  ◌>>=◌, ℕ, ◌+◌, ◌-◌, ◌%◌, ◌^◌, ◌<◌, ◌≡◌, refl, sym, ◌∙◌, ◌&&◌, Option, some, List, [], ◌∷◌, ◌++◌,
  ◌==◌, ltb, leb, min, if◌then◌else◌, length, length-append, get_or, get_or-append_one, arith,
}
use munux.Common.Memory.{Memory, update}
use munux.Libk.Printf.{Arg, plain, format, Out, putc_buf, terminate, kvsnprintf}
use munux.Libk.Printf.Sink.{Both, neither, each, format_keep}

-- A sink with no bound: the characters in order.
abbrev pub append_char : ℕ → List ℕ → List ℕ
append_char c text = text ++ c ∷ []

-- The whole text of a format with its arguments.
unfoldable pub render : List ℕ → List Arg → Option (List ℕ)
render fmt args = format append_char fmt plain args []

-- The cut of `text` to the buffer, with no NUL yet.
abbrev Cut : (buf size : ℕ) → Memory → List ℕ → Memory → Type 0
Cut buf size m text m' =
    (q : ℕ)
    → m' q ≡ (
        if leb buf q && ltb q (buf + min (length text) (size - 1))
        then get_or text (q - buf) 0
        else m q)

-- The buffer holds the cut of what the unbounded sink holds, while `total` does not wrap.
abbrev Tracks : (buf size : ℕ) → Memory → List ℕ → Out → Type 0
Tracks buf size m text o =
    length text < 2 ^ 32 - 1 → (o.total ≡ length text) × Cut buf size m text o.memory

-- One more character in a bounded buffer.
Cut-append :
    (buf size : ℕ) (m : Memory) (text : List ℕ) (c : ℕ) (before : Memory)
    → Cut buf size m text before
    → Cut buf size m
        (text ++ c ∷ [])
        (if ltb (length text + 1) size then update before (buf + length text) c else before)
Cut-append buf size m text c before cut q =
    rw (length-append text (c ∷ []), get_or-append_one text c 0 (q - buf)) (ground (arith, cut q))

putc_buf-Tracks :
    (buf size : ℕ) (m : Memory) (c : ℕ) (text : List ℕ) (o : Out)
    → Tracks buf size m text o
    → Tracks buf size m (append_char c text) (putc_buf buf size c o)
unfolding putc_buf
putc_buf-Tracks buf size m c text o tracks short =
    let len : length (text ++ c ∷ []) ≡ length text + 1 = length-append text (c ∷ []) in
    let (total, cut) = tracks (omega (arith, len)) in
    let next : (o.total + 1) % 2 ^ 32 ≡ length text + 1 = omega (arith, len, total) in
    (next ∙ sym len, rw (next, total) (Cut-append buf size m text c o.memory cut))

-- What `kvsnprintf` leaves in memory: the first `size - 1` characters of the text at most, a NUL
-- behind them if `size` is not 0, and all else as before.
abbrev pub Written : (buf size : ℕ) → Memory → List ℕ → Memory → Type 0
Written buf size m text m' =
    (q : ℕ)
    → m' q ≡ (
        if leb buf q && ltb q (buf + min (length text) (size - 1))
        then get_or text (q - buf) 0
        else if ltb 0 size && q == buf + min (length text) (size - 1)
        then 0
        else m q)

finish :
    (buf size : ℕ) (m : Memory) (text : List ℕ) (before : Memory)
    → Cut buf size m text before
    → Written buf size m text (
        if ltb 0 size
        then update before (buf + (if ltb (length text) size then length text else size - 1)) 0
        else before)
finish buf size m text before cut q = ground (arith, cut q)

module _ (buf size : ℕ) (fmt : List ℕ) (args : List Arg) (m : Memory) where
  tracked :
      Both
        (Tracks buf size m)
        (format append_char fmt plain args [])
        (format (putc_buf buf size) fmt plain args (record { memory = m; total = 0 }))
  tracked =
      format_keep append_char (putc_buf buf size) (Tracks buf size m) (putc_buf-Tracks buf size m)
        fmt plain args [] (record { memory = m; total = 0 }) (λ _. (refl, λ q. ground arith))

  bounded :
      (r : Option (List ℕ)) (o : Option Out)
      → Both (Tracks buf size m) r o
      → (text : List ℕ) → r ≡ some text
      → length text < 2 ^ 32 - 1
      → (m' : Memory) × ((o >>= λ o. some (terminate buf size o)) ≡ some (m', length text))
        × Written buf size m text m'
  unfolding terminate
  bounded _ _ neither text e short = absurd (cc)
  bounded _ _ (each {s = text'} {t = o} tracks) text e short =
      let same : text' ≡ text = cc in
      let (total, cut) = (rw same at tracks) short in
      (
        (if ltb 0 size
            then update o.memory (buf + (if ltb (length text) size then length text else size - 1))
                0
            else o.memory),
        rw total,
        finish buf size m text o.memory cut,
      )

  -- Where the format and the arguments fit, `kvsnprintf` returns the length of the whole text,
  -- whatever the size; it writes the first `size - 1` characters at most, ends them by a NUL unless
  -- `size` is 0, and changes no other byte.
  pub kvsnprintf_lem :
      (text : List ℕ)
      → render fmt args ≡ some text
      → length text < 2 ^ 32 - 1
      → (m' : Memory) × (kvsnprintf buf size fmt args m ≡ some (m', length text))
        × Written buf size m text m'
  unfolding kvsnprintf render
  kvsnprintf_lem text e short = bounded _ _ tracked text e short
