-- ===== src/Info.antt =====
-- donglora/info.py: the GET_INFO payload and the capability bits.
pub mod Chip
pub mod RoundTrip
use client_py.Prelude.{
  ℕ, zero, suc, ◌+◌, ◌-◌, ◌^◌, Bool, bit_and, List, [], ◌∷◌, ◌++◌, ◌==◌, leb, not, if◌then◌else◌,
  length, slice,
}
use client_py.Prelude.Int.{ℤ, pos, negsuc}
use client_py.Python.Result.{Result, ok, err, value_error, ◌>>=◌, ◌>>◌, guard}
use client_py.Python.Struct.{
  Bytes, pack_unsigned, pack_signed, bytes_of, unpack_unsigned, unpack_signed, byte_at,
}
use client_py.Python.Enum.{enum_call}
use Chip.{RadioChipId, radio_chip_id_enum}

abbrev pub max_mcu_uid_len : ℕ
max_mcu_uid_len = 32

abbrev pub max_radio_uid_len : ℕ
max_radio_uid_len = 16

pub record Info : Type 0 where
  pub proto_major : ℤ
  pub proto_minor : ℤ
  pub fw_major : ℤ
  pub fw_minor : ℤ
  pub fw_patch : ℤ
  pub radio_chip_id : ℤ
  pub capability_bitmap : ℤ
  pub supported_sf_bitmap : ℤ
  pub supported_bw_bitmap : ℤ
  pub max_payload_bytes : ℤ
  pub rx_queue_capacity : ℤ
  pub tx_queue_capacity : ℤ
  pub freq_min_hz : ℤ
  pub freq_max_hz : ℤ
  pub tx_power_min_dbm : ℤ
  pub tx_power_max_dbm : ℤ
  pub mcu_uid : Bytes
  pub radio_uid : Bytes

-- `RadioChipId | int`
pub data ChipOrInt : Type 0 where
  known : RadioChipId → ChipOrInt
  unlisted : ℤ → ChipOrInt

abbrev or_unlisted : ℤ → Result RadioChipId → ChipOrInt
or_unlisted z (ok id) = known id
or_unlisted z (err e) = unlisted z

-- Info.chip
unfoldable pub chip_of : ℤ → ChipOrInt
chip_of (pos n) = or_unlisted (pos n) (enum_call n)
chip_of z = unlisted z

unfoldable pub chip : Info → ChipOrInt
chip info = chip_of info.radio_chip_id

-- `z & mask` at a mask that is not negative; a negative number has the bits of its two's complement.
unfoldable pub and_mask : ℤ → ℕ → ℕ
and_mask (pos n) mask = bit_and n mask
and_mask (negsuc n) mask = mask - bit_and n mask

-- Info.supports, at a mask that is not negative.
unfoldable pub supports : Info → ℕ → Bool
unfolding and_mask
supports info mask = and_mask info.capability_bitmap mask == mask

-- `[n for n in range(k, k + count) if bitmap & (1 << n)]`
unfoldable pub bits_from : ℕ → ℕ → ℤ → List ℕ
unfolding and_mask
bits_from k zero bitmap = []
bits_from k (suc count) bitmap =
    let rest = bits_from (k + 1) count bitmap in
    if and_mask bitmap (2 ^ k) == 0 then rest else k ∷ rest

-- Info.supported_sf
unfoldable pub supported_sf : Info → List ℕ
supported_sf info = bits_from 0 16 info.supported_sf_bitmap

unfoldable pub encode : Info → Result Bytes
encode info = do
  guard (leb (length info.mcu_uid) max_mcu_uid_len) value_error
  guard (leb (length info.radio_uid) max_radio_uid_len) value_error
  proto_major ← pack_unsigned 1 info.proto_major
  proto_minor ← pack_unsigned 1 info.proto_minor
  fw_major ← pack_unsigned 1 info.fw_major
  fw_minor ← pack_unsigned 1 info.fw_minor
  fw_patch ← pack_unsigned 1 info.fw_patch
  radio_chip_id ← pack_unsigned 2 info.radio_chip_id
  capability_bitmap ← pack_unsigned 8 info.capability_bitmap
  supported_sf_bitmap ← pack_unsigned 2 info.supported_sf_bitmap
  supported_bw_bitmap ← pack_unsigned 2 info.supported_bw_bitmap
  max_payload_bytes ← pack_unsigned 2 info.max_payload_bytes
  rx_queue_capacity ← pack_unsigned 2 info.rx_queue_capacity
  tx_queue_capacity ← pack_unsigned 2 info.tx_queue_capacity
  freq_min_hz ← pack_unsigned 4 info.freq_min_hz
  freq_max_hz ← pack_unsigned 4 info.freq_max_hz
  tx_power_min_dbm ← pack_signed 1 info.tx_power_min_dbm
  tx_power_max_dbm ← pack_signed 1 info.tx_power_max_dbm
  mcu_uid_len ← pack_unsigned 1 (pos (length info.mcu_uid))
  let header =
      proto_major ++ proto_minor ++ fw_major ++ fw_minor ++ fw_patch ++ radio_chip_id
      ++ capability_bitmap ++ supported_sf_bitmap ++ supported_bw_bitmap ++ max_payload_bytes
      ++ rx_queue_capacity ++ tx_queue_capacity ++ freq_min_hz ++ freq_max_hz ++ tx_power_min_dbm
      ++ tx_power_max_dbm ++ mcu_uid_len
  radio_uid_len ← bytes_of (pos (length info.radio_uid) ∷ [])
  ok (header ++ info.mcu_uid ++ radio_uid_len ++ info.radio_uid)

-- The end of `Info.decode`: `mcu_uid` and `radio_uid`.
unfoldable pub decode_uids : Bytes → ℕ → Result (Bytes × Bytes)
decode_uids bs mcu_uid_len = do
  guard (leb mcu_uid_len max_mcu_uid_len) value_error
  guard (leb (36 + mcu_uid_len + 1) (length bs)) value_error
  let mcu_uid = slice bs 36 (36 + mcu_uid_len)
  let radio_len_idx = 36 + mcu_uid_len
  radio_uid_len ← byte_at bs radio_len_idx
  guard (leb radio_uid_len max_radio_uid_len) value_error
  let radio_start = radio_len_idx + 1
  guard (leb (radio_start + radio_uid_len) (length bs)) value_error
  let radio_uid = slice bs radio_start (radio_start + radio_uid_len)
  ok (mcu_uid, radio_uid)

-- The struct code "<BBBBBHQHHHHHIIbbB" puts the fields at the offsets 0 to 35.
unfoldable pub decode : Bytes → Result Info
decode bs = do
  guard (leb 37 (length bs)) value_error
  proto_major ← unpack_unsigned 1 bs 0
  proto_minor ← unpack_unsigned 1 bs 1
  fw_major ← unpack_unsigned 1 bs 2
  fw_minor ← unpack_unsigned 1 bs 3
  fw_patch ← unpack_unsigned 1 bs 4
  radio_chip_id ← unpack_unsigned 2 bs 5
  capability_bitmap ← unpack_unsigned 8 bs 7
  supported_sf_bitmap ← unpack_unsigned 2 bs 15
  supported_bw_bitmap ← unpack_unsigned 2 bs 17
  max_payload_bytes ← unpack_unsigned 2 bs 19
  rx_queue_capacity ← unpack_unsigned 2 bs 21
  tx_queue_capacity ← unpack_unsigned 2 bs 23
  freq_min_hz ← unpack_unsigned 4 bs 25
  freq_max_hz ← unpack_unsigned 4 bs 29
  tx_power_min_dbm ← unpack_signed 1 bs 33
  tx_power_max_dbm ← unpack_signed 1 bs 34
  mcu_uid_len ← byte_at bs 35
  (mcu_uid, radio_uid) ← decode_uids bs mcu_uid_len
  ok (record {
    proto_major = proto_major;
    proto_minor = proto_minor;
    fw_major = fw_major;
    fw_minor = fw_minor;
    fw_patch = fw_patch;
    radio_chip_id = radio_chip_id;
    capability_bitmap = capability_bitmap;
    supported_sf_bitmap = supported_sf_bitmap;
    supported_bw_bitmap = supported_bw_bitmap;
    max_payload_bytes = max_payload_bytes;
    rx_queue_capacity = rx_queue_capacity;
    tx_queue_capacity = tx_queue_capacity;
    freq_min_hz = freq_min_hz;
    freq_max_hz = freq_max_hz;
    tx_power_min_dbm = tx_power_min_dbm;
    tx_power_max_dbm = tx_power_max_dbm;
    mcu_uid = mcu_uid;
    radio_uid = radio_uid;
  })
