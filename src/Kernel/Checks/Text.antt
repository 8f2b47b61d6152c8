-- ===== src/Kernel/Checks/Text.antt =====
-- The strings that the tests read back from their arrays.
use munux.Common.{
  ℕ, zero, suc, ◌+◌, ◌-◌, ◌^◌, ◌≤◌, ◌<◌, ◌≡◌, ◌≢◌, refl, ◌∙◌, ◌⊎◌, some, List, [], ◌∷◌, ◌++◌, min,
  length, get_or, All, arith,
}
use munux.Common.Memory.{Memory}
use munux.Libk.Conv.{store_text}
use munux.Libk.Conv.Text.{Holds, store_text-Holds}
use munux.Libk.Printf.{Arg, kvsnprintf}
use munux.Libk.Printf.Bounded.{render, kvsnprintf_lem}
use munux.Kernel.Console.{string_at, string_at_text}

-- Memory as before, outside the `size` bytes at `p`.
abbrev pub Apart : (p size : ℕ) → Memory → Memory → Type 0
Apart p size m m' = (q : ℕ) → (q < p) ⊎ (p + size ≤ q) → m' q ≡ m q

-- A text that was stored with its NUL is read back.
pub string_at-store_text :
    (text : List ℕ) (size p : ℕ) (m : Memory)
    → All (λ c. c ≢ 0) text
    → length text < size
    → (string_at size p (store_text text p m) ≡ some text) × Apart p size m (store_text text p m)
string_at-store_text text size p m filled short =
    let holds : Holds (store_text text p m) m p text = store_text-Holds text p m in
    (
      string_at_text text size p (store_text text p m)
          (λ k l.
            let e : p + k - p ≡ k = omega arith in
            let byte : store_text text p m (p + k) ≡ get_or text (p + k - p) 0 =
              ground (arith, holds (p + k)) in
            rw e at byte)
          (ground (arith, holds (p + length text))) filled short,
      λ q out. ground (arith, holds q, out),
    )

get_or-append_left :
    (xs ys : List ℕ) (k : ℕ) → k < length xs → get_or (xs ++ ys) k 0 ≡ get_or xs k 0
get_or-append_left [] ys k h = absurd (omega arith)
get_or-append_left (x ∷ xs) ys zero h = refl
get_or-append_left (x ∷ xs) ys (suc k) h = get_or-append_left xs ys k (omega arith)

-- What `kvsnprintf` wrote is read back as the part that fits.
pub string_at-kvsnprintf :
    (shown rest : List ℕ) (size p : ℕ) (fmt : List ℕ) (args : List Arg) (m : Memory)
    → render fmt args ≡ some (shown ++ rest)
    → length (shown ++ rest) < 2 ^ 32 - 1
    → length shown ≡ min (length (shown ++ rest)) (size - 1)
    → 0 < size
    → All (λ c. c ≢ 0) shown
    → (m' : Memory) × (kvsnprintf p size fmt args m ≡ some (m', length (shown ++ rest)))
      × (string_at size p m' ≡ some shown)
      × Apart p size m m'
string_at-kvsnprintf shown rest size p fmt args m e small fits room filled =
    let (m', run, written) = kvsnprintf_lem p size fmt args m (shown ++ rest) e small in
    (
      m',
      run,
      string_at_text shown size p m'
          (λ k l.
            let e : p + k - p ≡ k = omega arith in
            let byte : m' (p + k) ≡ get_or (shown ++ rest) (p + k - p) 0 =
              ground (arith, written (p + k), fits) in
            (rw e at byte) ∙ get_or-append_left shown rest k l)
          (ground (arith, written (p + length shown), fits)) filled (omega (arith, fits)),
      λ q out. ground (arith, written q, fits, out),
    )
