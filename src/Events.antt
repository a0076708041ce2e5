-- ===== src/Events.antt =====
-- donglora/events.py: the payloads that the device sends, but for RX events (Events/Rx).
pub mod Enums
pub mod Rx
pub mod RoundTrip
use client_py.Prelude.{
  ℕ, Bool, ◌||◌, Option, some, none, [], ◌∷◌, ◌++◌, ◌==◌, leb, if◌then◌else◌, length, drop,
}
use client_py.Prelude.Int.{ℤ, pos}
use client_py.Python.Result.{Result, ok, err, value_error, ◌>>=◌, ◌>>◌, guard}
use client_py.Python.Struct.{Bytes, pack_unsigned, bytes_of, unpack_unsigned, raw_from, byte_at}
use client_py.Python.Enum.{int_of, enum_call}
use client_py.Errors.{CodeOrInt, from_u16, int_of_code}
use client_py.Info
use client_py.Info.{Info}
use client_py.Modulation.{Modulation, encode_modulation, decode_modulation}
use client_py.Commands.{
  type_ping, type_get_info, type_set_config, type_tx, type_rx_start, type_rx_stop,
}
use Enums.{
  SetConfigResultCode, Owner, TxResult, set_config_result_code_enum, owner_enum, tx_result_enum,
}

abbrev pub type_ok : ℕ
type_ok = 0x80

abbrev pub type_err : ℕ
type_err = 0x81

abbrev pub type_rx : ℕ
type_rx = 0xc0

abbrev pub type_tx_done : ℕ
type_tx_done = 0xc1

pub record SetConfigResult : Type 0 where
  pub result : SetConfigResultCode
  pub owner : Owner
  pub current : Modulation

-- SetConfigResult.encode
unfoldable pub encode_set_config_result : SetConfigResult → Result Bytes
encode_set_config_result r = do
  head ← bytes_of (pos (int_of r.result) ∷ pos (int_of r.owner) ∷ [])
  current ← encode_modulation r.current
  ok (head ++ current)

-- SetConfigResult.decode
unfoldable pub decode_set_config_result : Bytes → Result SetConfigResult
decode_set_config_result bs = do
  guard (leb 2 (length bs)) value_error
  result_byte ← byte_at bs 0
  result ← enum_call result_byte
  owner_byte ← byte_at bs 1
  owner ← enum_call owner_byte
  current ← decode_modulation (drop 2 bs)
  ok (record { result = result; owner = owner; current = current })

pub record TxDone : Type 0 where
  pub result : TxResult
  pub airtime_us : ℤ

-- TxDone.encode
unfoldable pub encode_tx_done : TxDone → Result Bytes
encode_tx_done t = do
  head ← bytes_of (pos (int_of t.result) ∷ [])
  airtime ← pack_unsigned 4 t.airtime_us
  ok (head ++ airtime)

-- TxDone.decode
unfoldable pub decode_tx_done : Bytes → Result TxDone
decode_tx_done bs = do
  guard (length bs == 5) value_error
  result_byte ← byte_at bs 0
  result ← enum_call result_byte
  airtime_us ← unpack_unsigned 4 bs 1
  ok (record { result = result; airtime_us = airtime_us })

-- What `parse_ok_payload` returns: None, an Info or a SetConfigResult.
pub data OkPayload : Type 0 where
  empty : OkPayload
  info : Info → OkPayload
  config_result : SetConfigResult → OkPayload

abbrev empty_or_raise : Bytes → Result OkPayload
empty_or_raise [] = ok empty
empty_or_raise (b ∷ bs) = err value_error

unfoldable pub parse_ok_payload : ℕ → Bytes → Result OkPayload
parse_ok_payload cmd_type payload =
    if cmd_type == type_ping
      || cmd_type == type_tx
      || cmd_type == type_rx_start
      || cmd_type == type_rx_stop
    then empty_or_raise payload
    else if cmd_type == type_get_info
    then (do i ← Info.decode payload; ok (info i))
    else if cmd_type == type_set_config
    then (do r ← decode_set_config_result payload; ok (config_result r))
    else err value_error

unfoldable pub encode_err_payload : CodeOrInt → Result Bytes
encode_err_payload code = pack_unsigned 2 (pos (int_of_code code))

unfoldable pub decode_err_payload : Bytes → Result CodeOrInt
decode_err_payload bs = do
  guard (length bs == 2) value_error
  raw ← raw_from 2 bs 0
  ok (from_u16 raw)
