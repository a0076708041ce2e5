-- ===== src/Python/Float.antt =====
-- The floating-point operations that the client uses, as an interface.
use client_py.Prelude.{◌≡◌}
use client_py.Prelude.Int.{ℤ, pos, negsuc, ◌≤ℤ◌}

pub record Floats : Type 1 where
  pub Float : Type 0
  -- `n / 10.0`
  pub tenth : ℤ → Float
  -- `round(x * 10)`
  pub round_tenths : Float → ℤ

-- On 16-bit integers, rounding undoes the division: a double holds ten times the quotient to within
-- far less than a half.
pub record RoundsTenths (fl : Floats) : Type 0 where
  pub round_tenths-tenth :
      (z : ℤ) → negsuc 32767 ≤ℤ z → z ≤ℤ pos 32767 → fl.round_tenths (fl.tenth z) ≡ z
