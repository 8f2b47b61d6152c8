-- ===== src/Common/Memory.antt =====
-- Memory as a function from an index or address to the value held there.
use Prim.Native.Nat.{ℕ}
use mathlib.Core.Path.{◌≡◌}
use mathlib.Core.Logic.{◌≢◌}
use native.Mathlib.Omega.{arith}
use munux.Common.Tests.{◌==◌, if◌then◌else◌}

abbrev pub Memory : Type 0
Memory = ℕ → ℕ

-- The store `m[p] = v`.
abbrev pub update : Memory → ℕ → ℕ → Memory
update m p v q = if q == p then v else m q

pub update_self : (m : Memory) (p v : ℕ) → update m p v p ≡ v
update_self m p v = ground arith

pub update_ne : (m : Memory) (p v q : ℕ) → q ≢ p → update m p v q ≡ m q
update_ne m p v q h = ground arith
