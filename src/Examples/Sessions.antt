-- ===== src/Examples/Sessions.antt =====
-- Runs of session.py: commands, their responses, and the end of a session.
use client_py.Prelude.{◌++◌, map, ℕ, ◌≡◌, ◌≢◌, refl, [], ◌∷◌, arith, false, some}
use client_py.Prelude.Int.{ℤ}
use client_py.Python.Result.{ok, err, value_error}
use client_py.Python.Struct.{Bytes, pack_unsigned, in_unsigned}
use client_py.Python.Enum.{enum_call, find_value}
use client_py.Python.Dict.{lookup, insert}
use client_py.Crc.{crc16, crc_from, crc_byte, crc_bits, crc_bit}
use client_py.Frame.{Frame, encode_frame}
use client_py.Errors.{named, timeout_error, from_u16}
use client_py.Errors.Code.{ErrorCode}
use client_py.Commands.{type_ping, type_tx, encode_tx_payload, tx_flags_as_byte}
use client_py.Events.{parse_ok_payload, decode_err_payload, empty}
use client_py.Session.State.{Session, init}
use client_py.Session.Send.{
  alloc_tag, register_pending, after_write, begin, finish, finish_tx, returned, raised,
}
use client_py.Session.Reader.{dispatch}
use client_py.Session.Wire.{begin_on_wire}
use client_py.Session.Carried.{set_config_carried}
use client_py.Session.Send.{set_config}
use client_py.Commands.{type_set_config}
use client_py.Modulation.{decode_modulation}
use client_py.Examples.Payloads.{default_config, default_bytes, default_encoded}
use client_py.Frame.{read_frame, byte, timeout}
use client_py.Examples.Wire.{escapes-IsCobs}
use client_py.Session.Tags.{IsTag, alloc_many, alloc_tag_distinct}
use client_py.Session.Correlation.{fresh, SameBut, dispatch_isolated}
use client_py.Session.Exchange.{exchange_bad_err, exchange_tx}
use client_py.Examples.Wire.{escapes, escape, ping_bytes}
use client_py.Examples.Payloads.{in_tenths, transmitted, transmitted_decoded}

-- A new session after its first command.
abbrev pub sent_first : ℕ → Bytes → Session ℤ
sent_first cmd_type wire = record {
  next_tag = 2;
  objects = fresh 1 cmd_type ∷ [];
  pending = (1, 0) ∷ [];
  rx_queue = [];
  async_errors = [];
  closed = false;
  reader_dead = false;
  written = wire ∷ [];
}

ping_sent :
    begin escapes type_ping (ok []) (ok tt) init ≡ (ok (1, 0), sent_first type_ping ping_bytes)
unfolding begin alloc_tag register_pending insert after_write encode_frame pack_unsigned in_unsigned
    escape crc16 crc_from crc_byte crc_bits crc_bit
ping_sent = refl

abbrev pub tx_bytes : Bytes
tx_bytes = 2 ∷ 4 ∷ 1 ∷ 2 ∷ 1 ∷ 1 ∷ 1 ∷ 1 ∷ 104 ∷ 16 ∷ 3 ∷ 0 ∷ []

pub tx_sent :
    begin escapes type_tx (ok (0 ∷ 104 ∷ [])) (ok tt) init
    ≡ (ok (1, 0), sent_first type_tx tx_bytes)
unfolding begin alloc_tag register_pending insert after_write encode_frame pack_unsigned in_unsigned
    escape crc16 crc_from crc_byte crc_bits crc_bit
tx_sent = refl

tx_payload : encode_tx_payload (104 ∷ []) false ≡ ok (0 ∷ 104 ∷ [])
unfolding encode_tx_payload pack_unsigned in_unsigned tx_flags_as_byte
tx_payload = refl

begin_on_wire_example :
    (wire : Bytes) × ((sent_first type_tx tx_bytes).written ≡ [] ++ wire ∷ [])
    × (read_frame escapes (map byte wire ++ timeout ∷ [])
        ≡ some (
          ok (some (record { type_id = type_tx; tag = 1; payload = 0 ∷ 104 ∷ [] })),
          timeout ∷ [],
        ))
begin_on_wire_example =
    begin_on_wire escapes type_tx 1 0 (0 ∷ 104 ∷ []) (ok tt) init (sent_first type_tx tx_bytes)
      (timeout ∷ []) escapes-IsCobs (ground arith) tx_sent

set_config_carried_example :
    (wire : Bytes) × (s1 : Session ℤ) × (set_config escapes default_config (ok tt) init
      ≡ (ok (1, 0), s1))
    × (s1.written ≡ [] ++ wire ∷ [])
    × (read_frame escapes (map byte wire ++ timeout ∷ [])
        ≡ some (
          ok (some (record { type_id = type_set_config; tag = 1; payload = default_bytes })),
          timeout ∷ [],
        ))
    × (decode_modulation default_bytes ≡ ok default_config)
set_config_carried_example =
    set_config_carried escapes default_config default_bytes init (timeout ∷ []) escapes-IsCobs tt
      (omega arith) default_encoded

abbrev pub response : ℕ → Bytes → Frame
response type_id payload = record { type_id = type_id; tag = 1; payload = payload }

ok_parsed : parse_ok_payload type_ping [] ≡ ok empty
unfolding parse_ok_payload
ok_parsed = refl

tx_ok_parsed : parse_ok_payload type_tx [] ≡ ok empty
unfolding parse_ok_payload
tx_ok_parsed = refl

busy_decoded : decode_err_payload (6 ∷ 0 ∷ []) ≡ ok (named ErrorCode.ebusy)
unfolding decode_err_payload from_u16 enum_call find_value
busy_decoded = refl

short_err : decode_err_payload (6 ∷ []) ≡ err value_error
unfolding decode_err_payload
short_err = refl

exchange_bad_err_example :
    ((finish 1 0 (dispatch in_tenths (response 0x81 (6 ∷ [])) (sent_first type_tx tx_bytes)).1).0
      ≡ raised timeout_error)
    × ((finish_tx 1 0
          (dispatch in_tenths (response 0x81 (6 ∷ [])) (sent_first type_tx tx_bytes)).1).0
        ≡ raised timeout_error)
exchange_bad_err_example =
    exchange_bad_err in_tenths escapes type_tx 1 0 (ok (0 ∷ 104 ∷ [])) (ok tt) init
      (sent_first type_tx tx_bytes) tx_sent (omega arith) (response 0x81 (6 ∷ [])) value_error refl
      refl short_err

exchange_tx_example :
    (finish_tx 1 0
      (dispatch in_tenths
        (response 0xc1 (0 ∷ 0 ∷ 161 ∷ 0 ∷ 0 ∷ []))
        (dispatch in_tenths (response 0x80 []) (sent_first type_tx tx_bytes)).1).1).0
    ≡ returned transmitted
exchange_tx_example =
    exchange_tx in_tenths escapes type_tx 1 0 (ok (0 ∷ 104 ∷ [])) (ok tt) init
      (sent_first type_tx tx_bytes) tx_sent (omega arith) (response 0x80 [])
      (response 0xc1 (0 ∷ 0 ∷ 161 ∷ 0 ∷ 0 ∷ [])) empty transmitted refl refl refl tx_ok_parsed refl
      refl transmitted_decoded

first_registered : lookup {V = ℕ} 1 ((1, 0) ∷ []) ≡ some 0
unfolding lookup
first_registered = refl

other_tag : lookup {V = ℕ} 7 ((1, 0) ∷ []) ≢ some 0
unfolding lookup
other_tag = λ e. cc

dispatch_isolated_example :
    SameBut 0
      (sent_first type_ping ping_bytes)
      (dispatch in_tenths
        (record { type_id = 0x80; tag = 7; payload = [] })
        (sent_first type_ping ping_bytes)).1
dispatch_isolated_example =
    dispatch_isolated in_tenths (sent_first type_ping ping_bytes)
      (record { type_id = 0x80; tag = 7; payload = [] }) 0 other_tag

alloc_tag_distinct_example :
    ((alloc_tag (alloc_many 3 (init {Float = ℤ}))).0
      ≢ (alloc_tag (alloc_many 65537 (init {Float = ℤ}))).0)
    × IsTag (alloc_tag (alloc_many 65537 (init {Float = ℤ}))).0
alloc_tag_distinct_example =
    alloc_tag_distinct 3 65537 (init {Float = ℤ}) (omega arith) (omega arith) (omega arith)
