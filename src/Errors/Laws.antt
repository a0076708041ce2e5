-- ===== src/Errors/Laws.antt =====
-- Error codes keep their numbers, and a DeviceError carries the code of the ERR frame.
use client_py.Prelude.{ℕ, ◌≡◌, refl}
use client_py.Python.Result.{Result, ok, err}
use client_py.Python.Enum.{enum_call, call-int_of, call_sound}
use client_py.Errors.{named, from_u16, int_of_code}
use client_py.Errors.Code.{ErrorCode, error_code_enum}

or_raw_number : (n : ℕ) (r : Result ErrorCode) → enum_call n ≡ r → int_of_code (from_u16 n) ≡ n
unfolding from_u16 int_of_code
or_raw_number n (ok code) h = rw h (call_sound n code h)
or_raw_number n (err e) h = rw h

-- from_u16 loses nothing: the number of its result is the number that it was given.
pub int_of_code-from_u16 : (n : ℕ) → int_of_code (from_u16 n) ≡ n
int_of_code-from_u16 n = or_raw_number n (enum_call n) refl

-- The number of a listed code is mapped back to that code.
pub from_u16-int_of_code : (code : ErrorCode) → from_u16 (int_of_code (named code)) ≡ named code
unfolding from_u16 int_of_code
from_u16-int_of_code code = rw (call-int_of code)
