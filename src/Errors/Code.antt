-- ===== src/Errors/Code.antt =====
-- The class ErrorCode of donglora/errors.py.
use client_py.Prelude.{ℕ, ◌≡◌, refl, List, [], ◌∷◌}
use client_py.Python.Result.{ok}
use client_py.Python.Enum.{IntEnum, find_value}

pub data ErrorCode : Type 0 where
  eparam elength enot_configured emodulation eunknown_cmd : ErrorCode
  ebusy eradio eframe einternal : ErrorCode

abbrev pub error_code_value : ErrorCode → ℕ
error_code_value ErrorCode.eparam = 1
error_code_value ErrorCode.elength = 2
error_code_value ErrorCode.enot_configured = 3
error_code_value ErrorCode.emodulation = 4
error_code_value ErrorCode.eunknown_cmd = 5
error_code_value ErrorCode.ebusy = 6
error_code_value ErrorCode.eradio = 0x0101
error_code_value ErrorCode.eframe = 0x0102
error_code_value ErrorCode.einternal = 0x0103

abbrev pub error_code_members : List ErrorCode
error_code_members =
    ErrorCode.eparam ∷ ErrorCode.elength ∷ ErrorCode.enot_configured ∷ ErrorCode.emodulation
    ∷ ErrorCode.eunknown_cmd ∷ ErrorCode.ebusy ∷ ErrorCode.eradio ∷ ErrorCode.eframe
    ∷ ErrorCode.einternal ∷ []

pub error_code_find_value-value :
    (m : ErrorCode) → find_value error_code_value (error_code_value m) error_code_members ≡ ok m
unfolding find_value
error_code_find_value-value ErrorCode.eparam = refl
error_code_find_value-value ErrorCode.elength = refl
error_code_find_value-value ErrorCode.enot_configured = refl
error_code_find_value-value ErrorCode.emodulation = refl
error_code_find_value-value ErrorCode.eunknown_cmd = refl
error_code_find_value-value ErrorCode.ebusy = refl
error_code_find_value-value ErrorCode.eradio = refl
error_code_find_value-value ErrorCode.eframe = refl
error_code_find_value-value ErrorCode.einternal = refl

instance abbrev pub error_code_enum : IntEnum ErrorCode
error_code_enum = record {
  value = error_code_value;
  members = error_code_members;
  find_value-value = error_code_find_value-value;
}
