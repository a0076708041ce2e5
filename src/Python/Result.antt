-- ===== src/Python/Result.antt =====
-- Code that may raise returns a `Result`. Messages are not modelled: an exception is its class.
use client_py.Prelude.{◌≡◌, refl, Bool, true, false}

pub data Error : Type 0 where
  value_error struct_error index_error os_error file_not_found_error attribute_error
        overflow_error :
      Error
  -- donglora.frame: FrameTooLargeError, which is a ValueError, and the subclasses of FrameError
  frame_too_large_error frame_cobs_error frame_too_short_error frame_crc_error : Error

-- `except ValueError`
abbrev pub is_value_error : Error → Bool
is_value_error value_error = true
is_value_error frame_too_large_error = true
is_value_error _ = false

-- `except (ConnectionRefusedError, OSError)`: FileNotFoundError is an OSError.
abbrev pub is_os_error : Error → Bool
is_os_error os_error = true
is_os_error file_not_found_error = true
is_os_error _ = false

-- `except donglora.frame.FrameError`
abbrev pub is_frame_error : Error → Bool
is_frame_error frame_cobs_error = true
is_frame_error frame_too_short_error = true
is_frame_error frame_crc_error = true
is_frame_error _ = false

pub data Result {ℓ} (V : Type ℓ) : Type ℓ where
  ok : V → Result V
  err : Error → Result V

-- `if not holds: raise e`
abbrev pub guard : Bool → Error → Result (Unit {0})
guard holds e = elim holds [ true ↦ ok tt | false ↦ err e ]

infixl 5 ◌>>=◌ ◌>>◌
abbrev pub ◌>>=◌ {ℓ κ} : {V : Type ℓ} {W : Type κ} → Result V → (V → Result W) → Result W
ok value >>= next = next value
err e >>= next = err e

abbrev pub ◌>>◌ {ℓ} : {W : Type ℓ} → Result (Unit {0}) → Result W → Result W
first >> second = first >>= λ _. second

-- Inversion of a bind that did not raise.
pub >>=-eq-ok {ℓ κ} :
    {V : Type ℓ} {W : Type κ} (first : Result V) (next : V → Result W) {result : W}
    → (first >>= next) ≡ ok result
    → (value : V) × (first ≡ ok value) × (next value ≡ ok result)
>>=-eq-ok (ok value) next h = (value, refl, h)
>>=-eq-ok (err e) next h = cc

pub guard_step {ℓ} :
    {B : Type ℓ} (t : Bool) (e : Error) (k : Unit {0} → Result B) {r : B}
    → (guard t e >>= k) ≡ ok r
    → (t ≡ true) × (k tt ≡ ok r)
guard_step true e k h = (refl, h)
guard_step false e k h = cc

pub ok_injective {ℓ} : {A : Type ℓ} (a b : A) → ok a ≡ ok b → a ≡ b
ok_injective a b h = cc
