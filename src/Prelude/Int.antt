-- ===== src/Prelude/Int.antt =====
-- Go's `int`, read as an unbounded integer: the values are configuration numbers, ports and status
-- codes. Where a product can leave 64 bits, the wrap is written out at its place.
use Prim.Native.Nat.{ℕ}
use mathlib.Core.Bool.{Bool, true, false}
use sipbridge.Prelude.Tests.{leb, ltb}

-- `negsuc n` is -(n + 1).
pub data ℤ : Type 0 where
  pos : ℕ → ℤ
  negsuc : ℕ → ℤ

-- `k <= z` and `z < k` for a constant `k` of the source.
abbrev pub at_least : ℕ → ℤ → Bool
at_least k (pos n) = leb k n
at_least k (negsuc n) = false

abbrev pub below : ℕ → ℤ → Bool
below k (pos n) = ltb n k
below k (negsuc n) = true

-- `a < b` on integers.
abbrev pub lt_int : ℤ → ℤ → Bool
lt_int (pos a) (pos b) = ltb a b
lt_int (pos a) (negsuc b) = false
lt_int (negsuc a) (pos b) = true
lt_int (negsuc a) (negsuc b) = ltb b a
