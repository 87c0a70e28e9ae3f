-- ===== src/Prelude/Int.antt =====
-- Go's signed integers, as integers: `negsuc n` is -(n + 1).
use Prim.Native.Nat.{ℕ}
use mathlib.Core.Bool.{Bool, true, false}
use blockstorageingestor.Prelude.Tests.{ltb, leb}

pub data ℤ : Type 0 where
  pos : ℕ → ℤ
  negsuc : ℕ → ℤ

-- `a <= n` and `n < a`, against a constant `n` that is not negative
abbrev pub at_most : ℤ → ℕ → Bool
at_most (pos a) n = leb a n
at_most (negsuc a) n = true

abbrev pub above : ℤ → ℕ → Bool
above (pos a) n = ltb n a
above (negsuc a) n = false
