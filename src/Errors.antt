-- ===== src/Errors.antt =====
-- donglora/errors.py: error codes on the wire, and the exceptions of the client. An exception is its
-- class with the attributes that code reads; messages are not modelled.
pub mod Code
pub mod Laws
use client_py.Prelude.{ℕ, ◌+◌, Bool, true, false, Option, ◌==◌, if◌then◌else◌}
use client_py.Python.Result.{Error, Result, ok, err}
use client_py.Python.Enum.{int_of, enum_call}
use Code.{ErrorCode, error_code_enum}

-- `ErrorCode | int`
pub data CodeOrInt : Type 0 where
  named : ErrorCode → CodeOrInt
  raw : ℕ → CodeOrInt

abbrev or_raw : ℕ → Result ErrorCode → CodeOrInt
or_raw n (ok code) = named code
or_raw n (err e) = raw n

-- ErrorCode.from_u16
unfoldable pub from_u16 : ℕ → CodeOrInt
from_u16 n = or_raw n (enum_call n)

-- int(code)
unfoldable pub int_of_code : CodeOrInt → ℕ
int_of_code (named code) = int_of code
int_of_code (raw n) = n

-- DeviceError and its subclasses.
pub data DeviceErrorClass : Type 0 where
  device_error_base not_configured_error busy_error param_error length_error : DeviceErrorClass
  modulation_error unknown_command_error radio_error internal_error : DeviceErrorClass

-- The class DongloraError and what is derived from it.
pub data DongloraError : Type 0 where
  donglora_error config_not_supported frame_error timeout_error : DongloraError
  channel_busy cancelled : DongloraError
  device_failure : DeviceErrorClass → CodeOrInt → ℕ → DongloraError

-- _SPECIALISATIONS.get(int(code), DeviceError)
unfoldable pub specialisation : ℕ → DeviceErrorClass
specialisation n =
    if n == int_of ErrorCode.eparam
    then param_error
    else if n == int_of ErrorCode.elength
    then length_error
    else if n == int_of ErrorCode.enot_configured
    then not_configured_error
    else if n == int_of ErrorCode.emodulation
    then modulation_error
    else if n == int_of ErrorCode.eunknown_cmd
    then unknown_command_error
    else if n == int_of ErrorCode.ebusy
    then busy_error
    else if n == int_of ErrorCode.eradio
    then radio_error
    else if n == int_of ErrorCode.einternal
    then internal_error
    else device_error_base

unfoldable pub device_error : CodeOrInt → ℕ → DongloraError
device_error code tag = device_failure (specialisation (int_of_code code)) code tag

-- `except NotConfiguredError`
unfoldable pub is_not_configured : DongloraError → Bool
is_not_configured (device_failure not_configured_error code tag) = true
is_not_configured _ = false
