-- ===== src/Libk/Strings/Fill.antt =====
-- What `strcpy`, `strncpy` and `strcat` leave in memory, and what the walks find there.
use munux.Common.{
  ℕ, zero, suc, ◌+◌, ◌-◌, ◌<◌, ◌≡◌, ◌≢◌, ap, ◌∙◌, false, ◌&&◌, some, List, [], ◌∷◌, ◌++◌, ◌==◌, ltb,
  leb, if◌then◌else◌, get_or, get_or-cons, length, arith,
}
use mathlib.Core.Path.{subst}
use munux.Common.Memory.{Memory, update}
use munux.Libk.Strings.{length_from, strlen, strcpy, pad_nul, strncpy, strcat}
use munux.Libk.Strings.Order.{IsText}

-- The string `text` stands at `p`.
abbrev pub StringAt : Memory → ℕ → List ℕ → Type 0
StringAt m p [] = m p ≡ 0
StringAt m p (c ∷ text) = (m p ≡ c) × (c ≢ 0) × StringAt m (p + 1) text

strcpy_below : (src : List ℕ) (dest q : ℕ) (m : Memory) → q < dest → strcpy dest src m q ≡ m q
unfolding strcpy
strcpy_below [] dest q m h = ground arith
strcpy_below (c ∷ src) dest q m h = ground (arith, strcpy_below src (dest + 1) q (update m dest c))

-- `strcpy` puts the string at `dest`, and changes only its bytes and the NUL.
pub strcpy_lem :
    (src : List ℕ) (dest : ℕ) (m : Memory)
    → IsText src
    → StringAt (strcpy dest src m) dest src
      × ((q : ℕ) → (leb dest q && leb q (dest + length src)) ≡ false → strcpy dest src m q ≡ m q)
unfolding strcpy
strcpy_lem [] dest m t = (ground arith, λ q h. ground arith)
strcpy_lem (c ∷ src) dest m t =
    let (there, same) = strcpy_lem src (dest + 1) (update m dest c) t.1 in
    (
      (ground (arith, strcpy_below src (dest + 1) dest (update m dest c)), t.0, there),
      λ q h. ground (arith, same q),
    )

length_from_lem :
    (text : List ℕ) (fuel len p : ℕ) (m : Memory)
    → StringAt m (p + len) text
    → length text < fuel
    → length_from fuel len p m ≡ some (len + length text)
unfolding length_from
length_from_lem text zero len p m s h = elim h [ ]
length_from_lem [] (suc n) len p m s h = ground arith
length_from_lem (c ∷ text) (suc n) len p m s h =
    let next : p + len + 1 ≡ p + (len + 1) = omega arith in
    let rest =
      length_from_lem text n (len + 1) p m (subst (λ q. StringAt m q text) next s.2)
        (omega arith) in
    ground arith

-- `strlen` of a string is the number of its bytes, found in one step more than that.
pub strlen_lem :
    (text : List ℕ) (fuel p : ℕ) (m : Memory)
    → StringAt m p text
    → length text < fuel
    → strlen fuel p m ≡ some (length text)
unfolding strlen
strlen_lem text fuel p m s h =
    let start : p ≡ p + 0 = omega arith in
    ground (arith, length_from_lem text fuel 0 p m (subst (λ q. StringAt m q text) start s))

-- Where a string stands at `dest`, and the walk may take more steps than it is long, `strcat`
-- ends, and then both strings stand at `dest`, one after the other; no byte below `dest` changes.
pub strcat_lem :
    (text src : List ℕ) (fuel dest : ℕ) (m : Memory)
    → StringAt m dest text
    → IsText src
    → length text < fuel
    → (m' : Memory) × (strcat fuel dest src m ≡ some m')
      × StringAt m' dest (text ++ src)
      × ((q : ℕ) → q < dest → m' q ≡ m q)
unfolding strcat
strcat_lem text src zero dest m s t h = elim h [ ]
strcat_lem [] src (suc n) dest m s t h =
    (strcpy dest src m, rw s, (strcpy_lem src dest m t).0, λ q l. strcpy_below src dest q m l)
strcat_lem (c ∷ text) src (suc n) dest m s t h =
    let (m', e, there, same) = strcat_lem text src n (dest + 1) m s.2 t (omega arith) in
    let more : (m dest == 0) ≡ false = ground arith in
    (m', rw more e, (same dest (omega arith) ∙ s.0, s.1, there), λ q l. same q (omega arith))

pad_nul_lem :
    (n dest : ℕ) (m : Memory) (q : ℕ)
    → pad_nul n dest m q ≡ (if leb dest q && ltb q (dest + n) then 0 else m q)
unfolding pad_nul
pad_nul_lem zero dest m q = ground arith
pad_nul_lem (suc n) dest m q = ground (arith, pad_nul_lem n (dest + 1) (update m dest 0) q)

-- `strncpy` writes exactly `n` bytes: those of the string as far as it goes, then NULs; a string of
-- `n` bytes or more gets no NUL.
pub strncpy_lem :
    (src : List ℕ) (n dest : ℕ) (m : Memory) (q : ℕ)
    → strncpy dest src n m q
      ≡ (if leb dest q && ltb q (dest + n) then get_or src (q - dest) 0 else m q)
unfolding strncpy
strncpy_lem src zero dest m q = ground arith
strncpy_lem [] (suc n) dest m q = pad_nul_lem (suc n) dest m q
strncpy_lem (c ∷ src) (suc n) dest m q =
    ground (
      arith,
      strncpy_lem src n (dest + 1) (update m dest c) q,
      get_or-cons c src (q - dest) 0,
      shift,
    )
  where
    shift : get_or src (q - dest - 1) 0 ≡ get_or src (q - (dest + 1)) 0
    shift = ap (λ k. get_or src k 0) (omega arith)
