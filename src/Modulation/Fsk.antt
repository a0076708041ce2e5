-- ===== src/Modulation/Fsk.antt =====
-- The class FskConfig of donglora/modulation.py.
pub mod RoundTrip
use client_py.Prelude.{ℕ, ◌+◌, [], ◌∷◌, ◌++◌, ◌==◌, leb, length, slice}
use client_py.Prelude.Int.{ℤ, pos}
use client_py.Python.Result.{Result, ok, value_error, ◌>>=◌, ◌>>◌, guard}
use client_py.Python.Struct.{Bytes, pack_unsigned, bytes_of, unpack_unsigned, byte_at}

pub record FskConfig : Type 0 where
  pub freq_hz : ℤ
  pub bitrate_bps : ℤ
  pub freq_dev_hz : ℤ
  pub rx_bw : ℤ
  pub preamble_len : ℤ
  pub sync_word : Bytes

unfoldable pub encode : FskConfig → Result Bytes
encode c = do
  guard (leb (length c.sync_word) 8) value_error
  freq ← pack_unsigned 4 c.freq_hz
  bitrate ← pack_unsigned 4 c.bitrate_bps
  freq_dev ← pack_unsigned 4 c.freq_dev_hz
  rx_bw ← bytes_of (c.rx_bw ∷ [])
  preamble ← pack_unsigned 2 c.preamble_len
  sync_word_len ← bytes_of (pos (length c.sync_word) ∷ [])
  ok (freq ++ bitrate ++ freq_dev ++ rx_bw ++ preamble ++ sync_word_len ++ c.sync_word)

unfoldable pub decode : Bytes → Result FskConfig
decode bs = do
  guard (leb 16 (length bs)) value_error
  freq_hz ← unpack_unsigned 4 bs 0
  bitrate_bps ← unpack_unsigned 4 bs 4
  freq_dev_hz ← unpack_unsigned 4 bs 8
  rx_bw ← byte_at bs 12
  preamble_len ← unpack_unsigned 2 bs 13
  sync_word_len ← byte_at bs 15
  guard (leb sync_word_len 8) value_error
  guard (length bs == 16 + sync_word_len) value_error
  ok (record {
    freq_hz = freq_hz;
    bitrate_bps = bitrate_bps;
    freq_dev_hz = freq_dev_hz;
    rx_bw = pos rx_bw;
    preamble_len = preamble_len;
    sync_word = slice bs 16 (16 + sync_word_len);
  })
