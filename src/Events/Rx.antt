-- ===== src/Events/Rx.antt =====
-- The class RxEvent of donglora/events.py.
pub mod RoundTrip
use client_py.Prelude.{ℕ, Bool, [], ◌∷◌, ◌++◌, leb, length, drop}
use client_py.Prelude.Int.{ℤ, pos}
use client_py.Python.Result.{Result, ok, value_error, ◌>>=◌, ◌>>◌, guard}
use client_py.Python.Struct.{
  Bytes, pack_unsigned, pack_signed, bytes_of, unpack_unsigned, unpack_signed, byte_at, bit_of,
  is_bit, truth,
}
use client_py.Python.Enum.{int_of, enum_call}
use client_py.Python.Float.{Floats}
use client_py.Events.Enums.{RxOrigin, rx_origin_enum}

pub record RxEvent (Float : Type 0) : Type 0 where
  pub rssi_dbm : Float
  pub snr_db : Float
  pub freq_err_hz : ℤ
  pub timestamp_us : ℤ
  pub crc_valid : Bool
  pub packets_dropped : ℤ
  pub origin : RxOrigin
  pub packet : Bytes

abbrev pub metadata_size : ℕ
metadata_size = 20

module _ (fl : Floats) where
  unfoldable pub encode : RxEvent fl.Float → Result Bytes
  encode e = do
    rssi ← pack_signed 2 (fl.round_tenths e.rssi_dbm)
    snr ← pack_signed 2 (fl.round_tenths e.snr_db)
    freq_err ← pack_signed 4 e.freq_err_hz
    timestamp ← pack_unsigned 8 e.timestamp_us
    crc_valid ← bytes_of (bit_of e.crc_valid ∷ [])
    dropped ← pack_unsigned 2 e.packets_dropped
    origin ← bytes_of (pos (int_of e.origin) ∷ [])
    ok (rssi ++ snr ++ freq_err ++ timestamp ++ crc_valid ++ dropped ++ origin ++ e.packet)

  unfoldable pub decode : Bytes → Result (RxEvent fl.Float)
  decode bs = do
    guard (leb metadata_size (length bs)) value_error
    rssi_raw ← unpack_signed 2 bs 0
    snr_raw ← unpack_signed 2 bs 2
    freq_err_hz ← unpack_signed 4 bs 4
    timestamp_us ← unpack_unsigned 8 bs 8
    crc_byte ← byte_at bs 16
    guard (is_bit crc_byte) value_error
    packets_dropped ← unpack_unsigned 2 bs 17
    origin_byte ← byte_at bs 19
    origin ← enum_call origin_byte
    ok (record {
      rssi_dbm = fl.tenth rssi_raw;
      snr_db = fl.tenth snr_raw;
      freq_err_hz = freq_err_hz;
      timestamp_us = timestamp_us;
      crc_valid = truth crc_byte;
      packets_dropped = packets_dropped;
      origin = origin;
      packet = drop metadata_size bs;
    })
