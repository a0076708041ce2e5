-- ===== src/Modulation/LrFhss.antt =====
-- The class LrFhssConfig of donglora/modulation.py.
pub mod RoundTrip
use client_py.Prelude.{ℕ, Bool, [], ◌∷◌, ◌++◌, ◌==◌, length}
use client_py.Prelude.Int.{ℤ, pos}
use client_py.Python.Result.{Result, ok, value_error, ◌>>=◌, ◌>>◌, guard}
use client_py.Python.Struct.{
  Bytes, pack_unsigned, pack_signed, bytes_of, unpack_unsigned, unpack_signed, byte_at, bit_of,
  is_bit, truth,
}
use client_py.Python.Enum.{int_of, enum_call}
use client_py.Modulation.OtherEnums.{
  LrFhssBandwidth, LrFhssCodingRate, LrFhssGrid, lr_fhss_bandwidth_enum, lr_fhss_coding_rate_enum,
  lr_fhss_grid_enum,
}

pub record LrFhssConfig : Type 0 where
  pub freq_hz : ℤ
  pub bw : LrFhssBandwidth
  pub cr : LrFhssCodingRate
  pub grid : LrFhssGrid
  pub hopping : Bool
  pub tx_power_dbm : ℤ

unfoldable pub encode : LrFhssConfig → Result Bytes
encode c = do
  freq ← pack_unsigned 4 c.freq_hz
  shape ← bytes_of (pos (int_of c.bw) ∷ pos (int_of c.cr) ∷ pos (int_of c.grid) ∷ [])
  hopping ← bytes_of (bit_of c.hopping ∷ [])
  power ← pack_signed 1 c.tx_power_dbm
  ok (freq ++ shape ++ hopping ++ power ++ 0 ∷ [])

unfoldable pub decode : Bytes → Result LrFhssConfig
decode bs = do
  guard (length bs == 10) value_error
  freq_hz ← unpack_unsigned 4 bs 0
  bw_byte ← byte_at bs 4
  bw ← enum_call bw_byte
  cr_byte ← byte_at bs 5
  cr ← enum_call cr_byte
  grid_byte ← byte_at bs 6
  grid ← enum_call grid_byte
  hopping ← byte_at bs 7
  guard (is_bit hopping) value_error
  tx_power_dbm ← unpack_signed 1 bs 8
  reserved ← byte_at bs 9
  guard (reserved == 0) value_error
  ok (record {
    freq_hz = freq_hz;
    bw = bw;
    cr = cr;
    grid = grid;
    hopping = truth hopping;
    tx_power_dbm = tx_power_dbm;
  })
