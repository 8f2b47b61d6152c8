-- ===== src/Memory/Bytes/Copy.antt =====
-- What memset and memcpy leave in memory, and memcmp of a copy.
use munux.Common.{
  ℕ, zero, suc, ◌+◌, ◌-◌, ◌%◌, ◌^◌, ◌≤◌, ◌<◌, ◌≡◌, refl, ◌⊎◌, ◌&&◌, ltb, leb, if◌then◌else◌, arith,
}
use munux.Common.Memory.{Memory, update}
use munux.Common.Int.{pos}
use munux.Memory.Bytes.{set_from, memset, copy_from, memcpy, compare_from, memcmp}

set_from_lem :
    (n i dest byte : ℕ) (m : Memory) (q : ℕ)
    → set_from n i dest byte m q ≡ (if leb (dest + i) q && ltb q (dest + i + n) then byte else m q)
unfolding set_from
set_from_lem zero i dest byte m q = ground arith
set_from_lem (suc n) i dest byte m q =
    ground (arith, set_from_lem n (i + 1) dest byte (update m (dest + i) byte) q)

-- `memset` stores the low byte of its value in each of the `len` bytes from `dest` on, and changes
-- no other byte.
pub memset_lem :
    (dest val len : ℕ) (m : Memory) (q : ℕ)
    → memset dest val len m q ≡ (if leb dest q && ltb q (dest + len) then val % 2 ^ 8 else m q)
unfolding memset
memset_lem dest val len m q = ground (arith, set_from_lem len 0 dest (val % 2 ^ 8) m q)

copy_from_lem :
    (n i dest src : ℕ) (m : Memory)
    → (dest ≤ src) ⊎ (src + i + n ≤ dest + i)
    → (q : ℕ)
    → copy_from n i dest src m q
      ≡ (if leb (dest + i) q && ltb q (dest + i + n) then m (src + (q - dest)) else m q)
unfolding copy_from
copy_from_lem zero i dest src m apart q = ground arith
copy_from_lem (suc n) i dest src m apart q =
    let next : (dest ≤ src) ⊎ (src + (i + 1) + n ≤ dest + (i + 1)) = ground arith in
    ground (arith, copy_from_lem n (i + 1) dest src (update m (dest + i) (m (src + i))) next q)

-- Where the target does not start inside the source behind its first byte, `memcpy` stores in
-- each of the `len` bytes from `dest` on what stood at the same place of the source before, and
-- changes no other byte.
pub memcpy_lem :
    (dest src len : ℕ) (m : Memory)
    → (dest ≤ src) ⊎ (src + len ≤ dest)
    → (q : ℕ)
    → memcpy dest src len m q
      ≡ (if leb dest q && ltb q (dest + len) then m (src + (q - dest)) else m q)
unfolding memcpy
memcpy_lem dest src len m apart q =
    let start : (dest ≤ src) ⊎ (src + 0 + len ≤ dest + 0) = ground arith in
    ground (arith, copy_from_lem len 0 dest src m start q)

compare_from_same :
    (n i a b : ℕ) (m : Memory)
    → ((j : ℕ) → i ≤ j → j < i + n → m (a + j) ≡ m (b + j))
    → compare_from n i a b m ≡ pos 0
unfolding compare_from
compare_from_same zero i a b m same = refl
compare_from_same (suc n) i a b m same =
    ground (
      arith,
      same i,
      compare_from_same n (i + 1) a b m (λ j p q. same j (omega arith) (omega arith)),
    )

-- Where the two ranges do not overlap, `memcmp` of a copy and its source is 0.
pub memcmp-memcpy :
    (dest src len : ℕ) (m : Memory)
    → (dest + len ≤ src) ⊎ (src + len ≤ dest)
    → memcmp dest src len (memcpy dest src len m) ≡ pos 0
unfolding memcmp
memcmp-memcpy dest src len m apart =
    let weaker : (dest ≤ src) ⊎ (src + len ≤ dest) = ground arith in
    compare_from_same len 0 dest src (memcpy dest src len m) λ j p q. ground (
      arith,
      memcpy_lem dest src len m weaker (dest + j),
      memcpy_lem dest src len m weaker (src + j),
    )
