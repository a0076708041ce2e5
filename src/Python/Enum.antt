-- ===== src/Python/Enum.antt =====
-- `enum.IntEnum`: the value of a member, and the call `E(n)`, which raises a ValueError for a number
-- that is no member's value.
use client_py.Prelude.{ℕ, ◌≡◌, List, [], ◌∷◌, ◌==◌, if◌then◌else◌, arith}
use client_py.Python.Result.{Result, ok, err, value_error}

-- The first of the members whose value is `n`.
unfoldable pub find_value {ℓ} : {E : Type ℓ} → (E → ℕ) → ℕ → List E → Result E
find_value value n [] = err value_error
find_value value n (m ∷ ms) = if value m == n then ok m else find_value value n ms

pub find_value_sound {ℓ} :
    {E : Type ℓ} (value : E → ℕ) (n : ℕ) (ms : List E) (m : E)
    → find_value value n ms ≡ ok m
    → value m ≡ n
unfolding find_value
find_value_sound value n [] m h = ground arith
find_value_sound value n (k ∷ ms) m h = ground (arith, find_value_sound value n ms m)

pub record IntEnum (E : Type 0) : Type 0 where
  pub value : E → ℕ
  pub members : List E
  pub find_value-value : (m : E) → find_value value (value m) members ≡ ok m

-- int(m)
abbrev pub int_of : {E : Type 0} ⦃e : IntEnum E⦄ → E → ℕ
int_of ⦃e⦄ = e.value

-- E(n)
unfoldable pub enum_call : {E : Type 0} ⦃e : IntEnum E⦄ → ℕ → Result E
enum_call ⦃e⦄ n = find_value e.value n e.members

module _ {E : Type 0} ⦃e : IntEnum E⦄ where
  pub call-int_of : (m : E) → enum_call (int_of m) ≡ ok m
  unfolding enum_call
  call-int_of m = e.find_value-value m

  pub call_sound : (n : ℕ) (m : E) → enum_call n ≡ ok m → int_of m ≡ n
  unfolding enum_call
  call_sound n m h = find_value_sound e.value n e.members m h
