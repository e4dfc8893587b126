-- ===== src/Prelude/Integers.antt =====
-- Python's `int` and `float`.
use Prim.Native.Nat.{ℕ, suc, ◌^◌, ◌/◌}
use mathlib.Core.Bool.{Bool}

-- `negsuc n` is -(n + 1).
pub data ℤ : Type 0 where
  pos : ℕ → ℤ
  negsuc : ℕ → ℤ

-- A finite `float`: its sign and its magnitude, a multiple of 2^-1074.
pub record Float : Type 0 where
  pub is_negative : Bool
  pub magnitude : ℕ

-- Every `float`.
pub data AnyFloat : Type 0 where
  finite_float : Float → AnyFloat
  infinite_float : (is_negative : Bool) → AnyFloat
  nan_float : AnyFloat

-- The magnitude of 1.0.
unfoldable pub float_one : ℕ
float_one = 2 ^ 1074

abbrev negated : ℕ → ℤ
negated ℕ.zero = pos 0
negated (suc n) = negsuc n

abbrev truncated : Bool → ℕ → ℤ
truncated Bool.true n = negated n
truncated Bool.false n = pos n

-- int(x): towards zero
unfoldable pub trunc : Float → ℤ
unfolding float_one
trunc x = truncated x.is_negative (x.magnitude / float_one)
