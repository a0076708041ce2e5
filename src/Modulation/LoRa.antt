-- ===== src/Modulation/LoRa.antt =====
-- The class LoRaConfig of donglora/modulation.py.
pub mod RoundTrip
use client_py.Prelude.{Bool, true, false, ◌&&◌, [], ◌∷◌, ◌++◌, ◌==◌, length}
use client_py.Prelude.Int.{ℤ, pos}
use client_py.Python.Result.{Result, ok, value_error, ◌>>=◌, ◌>>◌, guard}
use client_py.Python.Struct.{
  Bytes, pack_unsigned, pack_signed, bytes_of, unpack_unsigned, unpack_signed, byte_at, bit_of,
  is_bit, truth,
}
use client_py.Python.Enum.{int_of, enum_call}
use client_py.Modulation.LoRaEnums.{
  LoRaBandwidth, LoRaCodingRate, LoRaHeaderMode, lora_bandwidth_enum, lora_coding_rate_enum,
  lora_header_mode_enum,
}

pub record LoRaConfig : Type 0 where
  pub freq_hz : ℤ
  pub sf : ℤ
  pub bw : LoRaBandwidth
  pub cr : LoRaCodingRate
  pub preamble_len : ℤ
  pub sync_word : ℤ
  pub tx_power_dbm : ℤ
  pub header_mode : LoRaHeaderMode
  pub payload_crc : Bool
  pub iq_invert : Bool

-- LoRaConfig.default
abbrev pub default : LoRaConfig
default = record {
  freq_hz = pos 868_100_000;
  sf = pos 7;
  bw = LoRaBandwidth.khz_125;
  cr = LoRaCodingRate.cr_4_5;
  preamble_len = pos 8;
  sync_word = pos 0x1424;
  tx_power_dbm = pos 14;
  header_mode = LoRaHeaderMode.explicit;
  payload_crc = true;
  iq_invert = false;
}

unfoldable pub encode : LoRaConfig → Result Bytes
encode c = do
  freq ← pack_unsigned 4 c.freq_hz
  shape ← bytes_of (c.sf ∷ pos (int_of c.bw) ∷ pos (int_of c.cr) ∷ [])
  preamble ← pack_unsigned 2 c.preamble_len
  sync ← pack_unsigned 2 c.sync_word
  power ← pack_signed 1 c.tx_power_dbm
  flags ← bytes_of (pos (int_of c.header_mode) ∷ bit_of c.payload_crc ∷ bit_of c.iq_invert ∷ [])
  ok (freq ++ shape ++ preamble ++ sync ++ power ++ flags)

unfoldable pub decode : Bytes → Result LoRaConfig
decode bs = do
  guard (length bs == 15) value_error
  freq_hz ← unpack_unsigned 4 bs 0
  sf ← byte_at bs 4
  bw_byte ← byte_at bs 5
  bw ← enum_call bw_byte
  cr_byte ← byte_at bs 6
  cr ← enum_call cr_byte
  preamble_len ← unpack_unsigned 2 bs 7
  sync_word ← unpack_unsigned 2 bs 9
  tx_power_dbm ← unpack_signed 1 bs 11
  header_byte ← byte_at bs 12
  header_mode ← enum_call header_byte
  crc_byte ← byte_at bs 13
  iq_byte ← byte_at bs 14
  guard (is_bit crc_byte && is_bit iq_byte) value_error
  ok (record {
    freq_hz = freq_hz;
    sf = pos sf;
    bw = bw;
    cr = cr;
    preamble_len = preamble_len;
    sync_word = sync_word;
    tx_power_dbm = tx_power_dbm;
    header_mode = header_mode;
    payload_crc = truth crc_byte;
    iq_invert = truth iq_byte;
  })
