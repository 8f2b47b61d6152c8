-- ===== src/Libk/Strings.antt =====
-- munux-os/kernel/lib/string.c, with `strlen` of kernel.c.
-- Source strings are lists of bytes other than NUL; targets stand in a memory.
pub mod Order
pub mod Fill
mod Tests
use munux.Common.{
  ℕ, zero, suc, ◌+◌, ◌%◌, ◌^◌, Option, none, some, List, [], ◌∷◌, ◌==◌, if◌then◌else◌,
}
use munux.Common.Memory.{Memory, update}
use munux.Common.Int.{ℤ, pos, ◌-ℤ◌}

-- The loop of `strlen` from `len` on; `none` is a walk longer than the fuel.
pub length_from : (fuel len str : ℕ) → Memory → Option ℕ
length_from zero len str m = none
length_from (suc n) len str m =
    let later = length_from n (len + 1) str m in if m (str + len) == 0 then some len else later

-- `strlen`
pub strlen : (fuel str : ℕ) → Memory → Option ℕ
strlen fuel str m = length_from fuel 0 str m

-- `strcmp`: the difference of the first bytes that differ, the NUL at an end included.
unfoldable pub strcmp : List ℕ → List ℕ → ℤ
strcmp [] [] = pos 0
strcmp [] (b ∷ ys) = pos 0 -ℤ pos b
strcmp (a ∷ xs) [] = pos a -ℤ pos 0
strcmp (a ∷ xs) (b ∷ ys) = if a == b then strcmp xs ys else pos a -ℤ pos b

-- `strncmp`
unfoldable pub strncmp : List ℕ → List ℕ → ℕ → ℤ
strncmp xs ys zero = pos 0
strncmp [] [] (suc n) = pos 0
strncmp [] (b ∷ ys) (suc n) = pos 0 -ℤ pos b
strncmp (a ∷ xs) [] (suc n) = pos a -ℤ pos 0
strncmp (a ∷ xs) (b ∷ ys) (suc n) = if a == b then strncmp xs ys n else pos a -ℤ pos b

-- `strcpy`, its NUL included.
pub strcpy : (dest : ℕ) → List ℕ → Memory → Memory
strcpy dest [] m = update m dest 0
strcpy dest (c ∷ src) m = strcpy (dest + 1) src (update m dest c)

-- The second loop of `strncpy`: NULs up to `n` bytes in all.
pub pad_nul : (n dest : ℕ) → Memory → Memory
pad_nul zero dest m = m
pad_nul (suc n) dest m = pad_nul n (dest + 1) (update m dest 0)

-- `strncpy`
pub strncpy : (dest : ℕ) → List ℕ → (n : ℕ) → Memory → Memory
strncpy dest src zero m = m
strncpy dest [] (suc n) m = pad_nul (suc n) dest m
strncpy dest (c ∷ src) (suc n) m = strncpy (dest + 1) src n (update m dest c)

-- `strcat`: the walk to the end of `dest`, then the copy.
pub strcat : (fuel dest : ℕ) → List ℕ → Memory → Option Memory
strcat zero dest src m = none
strcat (suc n) dest src m =
    let later = strcat n (dest + 1) src m in if m dest == 0 then some (strcpy dest src m) else later

-- The loop of `strchr` from index `i` on, for a character `ch`; the NUL is found too.
pub index_from : (i : ℕ) → List ℕ → (ch : ℕ) → Option ℕ
index_from i [] ch = if ch == 0 then some i else none
index_from i (c ∷ s) ch = if c == ch then some i else index_from (i + 1) s ch

-- `strchr`: the index of the character found, for the 32-bit pattern of `c`.
pub strchr : List ℕ → (c : ℕ) → Option ℕ
strchr s c = index_from 0 s (c % 2 ^ 8)
