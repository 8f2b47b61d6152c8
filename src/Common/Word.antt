-- ===== src/Common/Word.antt =====
-- The unsigned 32-bit operations of the kernel (`uint32_t` and `size_t`), wrap-around included.
use Prim.Native.Nat.{ℕ, ◌+◌, ◌-◌, ◌*◌, ◌%◌, ◌^◌}

-- `a + b`, `a - b` and `a * b` on `uint32_t`.
abbrev pub add32 : ℕ → ℕ → ℕ
add32 a b = (a + b) % 2 ^ 32

abbrev pub sub32 : ℕ → ℕ → ℕ
sub32 a b = (a + 2 ^ 32 - b) % 2 ^ 32

abbrev pub mul32 : ℕ → ℕ → ℕ
mul32 a b = a * b % 2 ^ 32

-- `(uint32_t)-1`.
abbrev pub u32_max : ℕ
u32_max = 0xffff_ffff

-- `~a` on `uint32_t`.
abbrev pub not32 : ℕ → ℕ
not32 a = 0xffff_ffff - a
