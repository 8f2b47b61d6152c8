-- ===== src/Memory/Bytes.antt =====
-- munux-os/kernel/memory/utils.c: memset, memcpy and memcmp over a memory of bytes.
pub mod Copy
use munux.Common.{ℕ, zero, suc, ◌+◌, ◌%◌, ◌^◌, ◌==◌, if◌then◌else◌}
use munux.Common.Memory.{Memory, update}
use munux.Common.Int.{ℤ, pos, ◌-ℤ◌}

-- The loop of `memset` from index `i` on, with `n` rounds left.
pub set_from : (n i dest byte : ℕ) → Memory → Memory
set_from zero i dest byte m = m
set_from (suc n) i dest byte m = set_from n (i + 1) dest byte (update m (dest + i) byte)

-- `memset`, for the 32-bit pattern of `val`.
pub memset : (dest val len : ℕ) → Memory → Memory
memset dest val len m = set_from len 0 dest (val % 2 ^ 8) m

-- The loop of `memcpy` from index `i` on, with `n` rounds left.
pub copy_from : (n i dest src : ℕ) → Memory → Memory
copy_from zero i dest src m = m
copy_from (suc n) i dest src m = copy_from n (i + 1) dest src (update m (dest + i) (m (src + i)))

pub memcpy : (dest src len : ℕ) → Memory → Memory
memcpy dest src len m = copy_from len 0 dest src m

-- The loop of `memcmp` from index `i` on, with `n` rounds left.
pub compare_from : (n i a b : ℕ) → Memory → ℤ
compare_from zero i a b m = pos 0
compare_from (suc n) i a b m =
    let later = compare_from n (i + 1) a b m in
    if m (a + i) == m (b + i) then later else pos (m (a + i)) -ℤ pos (m (b + i))

pub memcmp : (a b n : ℕ) → Memory → ℤ
memcmp a b n m = compare_from n 0 a b m
