-- ===== src/Modulation/Flrc.antt =====
-- The class FlrcConfig of donglora/modulation.py.
pub mod RoundTrip
use client_py.Prelude.{ℕ, [], ◌∷◌, ◌++◌, ◌==◌, length}
use client_py.Prelude.Int.{ℤ, pos}
use client_py.Python.Result.{Result, ok, value_error, ◌>>=◌, ◌>>◌, guard}
use client_py.Python.Struct.{
  Bytes, pack_unsigned, pack_signed, bytes_of, unpack_unsigned, unpack_signed, byte_at,
}
use client_py.Python.Enum.{int_of, enum_call}
use client_py.Modulation.OtherEnums.{
  FlrcBitrate, FlrcCodingRate, FlrcBt, FlrcPreambleLen, flrc_bitrate_enum, flrc_coding_rate_enum,
  flrc_bt_enum, flrc_preamble_len_enum,
}

pub record FlrcConfig : Type 0 where
  pub freq_hz : ℤ
  pub bitrate : FlrcBitrate
  pub cr : FlrcCodingRate
  pub bt : FlrcBt
  pub preamble_len : FlrcPreambleLen
  pub sync_word : ℤ
  pub tx_power_dbm : ℤ

unfoldable pub encode : FlrcConfig → Result Bytes
encode c = do
  freq ← pack_unsigned 4 c.freq_hz
  shape ← bytes_of (
      pos (int_of c.bitrate)
      ∷ pos (int_of c.cr)
      ∷ pos (int_of c.bt)
      ∷ pos (int_of c.preamble_len)
      ∷ [])
  sync ← pack_unsigned 4 c.sync_word
  power ← pack_signed 1 c.tx_power_dbm
  ok (freq ++ shape ++ sync ++ power)

unfoldable pub decode : Bytes → Result FlrcConfig
decode bs = do
  guard (length bs == 13) value_error
  freq_hz ← unpack_unsigned 4 bs 0
  bitrate_byte ← byte_at bs 4
  bitrate ← enum_call bitrate_byte
  cr_byte ← byte_at bs 5
  cr ← enum_call cr_byte
  bt_byte ← byte_at bs 6
  bt ← enum_call bt_byte
  preamble_byte ← byte_at bs 7
  preamble_len ← enum_call preamble_byte
  sync_word ← unpack_unsigned 4 bs 8
  tx_power_dbm ← unpack_signed 1 bs 12
  ok (record {
    freq_hz = freq_hz;
    bitrate = bitrate;
    cr = cr;
    bt = bt;
    preamble_len = preamble_len;
    sync_word = sync_word;
    tx_power_dbm = tx_power_dbm;
  })
