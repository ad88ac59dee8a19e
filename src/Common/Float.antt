-- ===== src/Common/Float.antt =====
-- Go's `float64` as an IEEE 754 datum, with the tests and the conversion that the engine uses.
use quantumbilling.Common.{ℕ, suc, Bool, true, false, ◌&&◌, not, ◌==◌}
use quantumbilling.Common.Int.{ℤ, pos, negsuc}

-- `finite s m e` is (-1)^s * m * 2^e, with the zeros of both signs at m = 0.
pub data Float64 : Type 0 where
  finite : Bool → ℕ → ℤ → Float64
  infinite : Bool → Float64
  nan : Float64

-- `f < 0`
abbrev pub lt_zero : Float64 → Bool
lt_zero (finite s m e) = s && not (m == 0)
lt_zero (infinite s) = s
lt_zero nan = false

-- `f == 0`
abbrev pub eq_zero : Float64 → Bool
eq_zero (finite s m e) = m == 0
eq_zero (infinite s) = false
eq_zero nan = false

-- `float64(n)` of an `int32`, which is exact
abbrev pub from_int32 : ℤ → Float64
from_int32 (pos n) = finite false n (pos 0)
from_int32 (negsuc n) = finite true (suc n) (pos 0)

-- the value zero of the type
abbrev pub zero_value : Float64
zero_value = finite false 0 (pos 0)

abbrev pub is_finite : Float64 → Bool
is_finite (finite s m e) = true
is_finite _ = false
