-- ===== src/Examples/Payloads.antt =====
-- Runs of the payload codecs: modulation.py, info.py, events.py and errors.py.
use client_py.Prelude.{All, ◌≤◌, length, ◌↔◌, ◌≡◌, refl, [], ◌∷◌, ◌++◌, arith, true}
use client_py.Prelude.Int.{ℤ, pos, negsuc}
use client_py.Python.Result.{ok, err, value_error}
use client_py.Python.Struct.{
  Bytes, IsByte, pack_unsigned, pack_signed, in_unsigned, in_signed, pattern_of, bytes_of, byte_of,
  bit_of, is_bit, truth,
}
use client_py.Python.Enum.{enum_call, find_value}
use client_py.Python.Float.{Floats, RoundsTenths}
use client_py.Modulation.{Modulation, lora, fsk, encode_modulation, decode_modulation}
use client_py.Modulation.LoRa
use client_py.Modulation.Fsk
use client_py.Modulation.Bytewise.{encode_modulation-AtMost}
use client_py.Modulation.RoundTrip.{decode_modulation_iff}
use client_py.Errors.{named, int_of_code}
use client_py.Errors.Code.{ErrorCode}
use client_py.Info
use client_py.Info.{Info}
use client_py.Info.RoundTrip.{decode-encode_info}
use client_py.Events.{
  SetConfigResult, encode_set_config_result, decode_set_config_result, TxDone, encode_tx_done,
  decode_tx_done, encode_err_payload,
}
use client_py.Events.Enums.{SetConfigResultCode, Owner, TxResult, RxOrigin}
use client_py.Events.Rx
use client_py.Events.Rx.{RxEvent}

-- What LoRaConfig.default() is on the wire: 868.1 MHz, SF7, 125 kHz.
abbrev pub default_bytes : Bytes
default_bytes = 1 ∷ 160 ∷ 39 ∷ 190 ∷ 51 ∷ 7 ∷ 7 ∷ 0 ∷ 8 ∷ 0 ∷ 36 ∷ 20 ∷ 14 ∷ 0 ∷ 1 ∷ 0 ∷ []

abbrev pub default_config : Modulation
default_config = lora LoRa.default

pub default_encoded : encode_modulation default_config ≡ ok default_bytes
unfolding encode_modulation LoRa.encode pack_unsigned pack_signed in_unsigned in_signed pattern_of
    bytes_of byte_of bit_of
default_encoded = refl

default_decoded : decode_modulation default_bytes ≡ ok default_config
unfolding decode_modulation LoRa.decode enum_call find_value is_bit truth
default_decoded = refl

decode_modulation_iff_example :
    (encode_modulation default_config ≡ ok default_bytes)
    ↔ (decode_modulation default_bytes ≡ ok default_config)
decode_modulation_iff_example = decode_modulation_iff default_bytes default_config (ground arith)

-- FSK at 868 MHz, 50 kbit/s, with the longest sync word.
abbrev fsk_config : Modulation
fsk_config = fsk (record {
  freq_hz = pos 868_000_000;
  bitrate_bps = pos 50_000;
  freq_dev_hz = pos 25_000;
  rx_bw = pos 11;
  preamble_len = pos 16;
  sync_word = 193 ∷ 148 ∷ 193 ∷ 1 ∷ 2 ∷ 3 ∷ 4 ∷ 5 ∷ [];
})

abbrev fsk_bytes : Bytes
fsk_bytes =
    2 ∷ 0 ∷ 161 ∷ 188 ∷ 51 ∷ 80 ∷ 195 ∷ 0 ∷ 0 ∷ 168 ∷ 97 ∷ 0 ∷ 0 ∷ 11 ∷ 16 ∷ 0 ∷ 8 ∷ 193 ∷ 148 ∷ 193
    ∷ 1 ∷ 2 ∷ 3 ∷ 4 ∷ 5 ∷ []

fsk_encoded : encode_modulation fsk_config ≡ ok fsk_bytes
unfolding encode_modulation Fsk.encode pack_unsigned in_unsigned bytes_of byte_of
fsk_encoded = refl

encode_modulation-AtMost_example : All IsByte fsk_bytes × (length fsk_bytes ≤ 25)
encode_modulation-AtMost_example =
    encode_modulation-AtMost fsk_config fsk_bytes (ground arith) fsk_encoded

-- A reserved modulation id and a flag that is neither 0 nor 1 are refused.
unknown_modulation : decode_modulation (9 ∷ []) ≡ err value_error
unfolding decode_modulation
unknown_modulation = refl

bad_flag :
    LoRa.decode (160 ∷ 39 ∷ 190 ∷ 51 ∷ 7 ∷ 7 ∷ 0 ∷ 8 ∷ 0 ∷ 36 ∷ 20 ∷ 14 ∷ 0 ∷ 2 ∷ 0 ∷ [])
    ≡ err value_error
unfolding LoRa.decode enum_call find_value is_bit
bad_flag = refl

-- An SX1262 with two bytes of MCU id and no radio id.
abbrev pub sample_info : Info
sample_info = record {
  proto_major = pos 1;
  proto_minor = pos 0;
  fw_major = pos 0;
  fw_minor = pos 1;
  fw_patch = pos 0;
  radio_chip_id = pos 2;
  capability_bitmap = pos 1;
  supported_sf_bitmap = pos 0x1fe0;
  supported_bw_bitmap = pos 0x03ff;
  max_payload_bytes = pos 255;
  rx_queue_capacity = pos 64;
  tx_queue_capacity = pos 16;
  freq_min_hz = pos 150_000_000;
  freq_max_hz = pos 960_000_000;
  tx_power_min_dbm = negsuc 8;
  tx_power_max_dbm = pos 22;
  mcu_uid = 0xde ∷ 0xad ∷ [];
  radio_uid = [];
}

abbrev pub info_bytes : Bytes
info_bytes =
    1 ∷ 0 ∷ 0 ∷ 1 ∷ 0 ∷ 2 ∷ 0 ∷ 1 ∷ 0 ∷ 0 ∷ 0 ∷ 0 ∷ 0 ∷ 0 ∷ 0 ∷ 224 ∷ 31 ∷ 255 ∷ 3 ∷ 255 ∷ 0 ∷ 64
    ∷ 0 ∷ 16 ∷ 0 ∷ 128 ∷ 209 ∷ 240 ∷ 8 ∷ 0 ∷ 112 ∷ 56 ∷ 57 ∷ 247 ∷ 22 ∷ 2 ∷ 0xde ∷ 0xad ∷ 0 ∷ []

pub info_encoded : Info.encode sample_info ≡ ok info_bytes
unfolding Info.encode pack_unsigned pack_signed in_unsigned in_signed pattern_of bytes_of byte_of
info_encoded = refl

sample_spreading_factors : Info.supported_sf sample_info ≡ 5 ∷ 6 ∷ 7 ∷ 8 ∷ 9 ∷ 10 ∷ 11 ∷ 12 ∷ []
unfolding Info.supported_sf Info.bits_from Info.and_mask
sample_spreading_factors = refl

decode-encode_info_example : Info.decode (info_bytes ++ 7 ∷ 7 ∷ []) ≡ ok sample_info
decode-encode_info_example = decode-encode_info sample_info info_bytes (7 ∷ 7 ∷ []) info_encoded

abbrev pub applied : SetConfigResult
applied = record {
  result = SetConfigResultCode.applied;
  owner = Owner.mine;
  current = default_config;
}

applied_encoded : encode_set_config_result applied ≡ ok (0 ∷ 1 ∷ default_bytes)
unfolding encode_set_config_result encode_modulation LoRa.encode pack_unsigned pack_signed
    in_unsigned in_signed pattern_of bytes_of byte_of bit_of
applied_encoded = refl

pub applied_decoded : decode_set_config_result (0 ∷ 1 ∷ default_bytes) ≡ ok applied
unfolding decode_set_config_result decode_modulation LoRa.decode enum_call find_value is_bit truth
applied_decoded = refl

abbrev pub transmitted : TxDone
transmitted = record { result = TxResult.transmitted; airtime_us = pos 41216 }

transmitted_encoded : encode_tx_done transmitted ≡ ok (0 ∷ 0 ∷ 161 ∷ 0 ∷ 0 ∷ [])
unfolding encode_tx_done bytes_of byte_of in_unsigned pack_unsigned
transmitted_encoded = refl

pub transmitted_decoded : decode_tx_done (0 ∷ 0 ∷ 161 ∷ 0 ∷ 0 ∷ []) ≡ ok transmitted
unfolding decode_tx_done enum_call find_value
transmitted_decoded = refl

busy_encoded : encode_err_payload (named ErrorCode.ebusy) ≡ ok (6 ∷ 0 ∷ [])
unfolding encode_err_payload int_of_code pack_unsigned in_unsigned
busy_encoded = refl

-- Levels counted in tenths, in place of floating-point numbers.
abbrev pub in_tenths : Floats
in_tenths = record { Float = ℤ; tenth = λ z. z; round_tenths = λ z. z }

pub in_tenths-RoundsTenths : RoundsTenths in_tenths
in_tenths-RoundsTenths = record { round_tenths-tenth = λ z low high. refl }

-- A packet of two bytes at -80.0 dBm and 9.5 dB, received over the air.
abbrev pub rx_bytes : Bytes
rx_bytes =
    224 ∷ 252 ∷ 95 ∷ 0 ∷ 156 ∷ 255 ∷ 255 ∷ 255 ∷ 64 ∷ 66 ∷ 15 ∷ 0 ∷ 0 ∷ 0 ∷ 0 ∷ 0 ∷ 1 ∷ 0 ∷ 0 ∷ 0
    ∷ 104 ∷ 105 ∷ []

abbrev pub rx_event : RxEvent ℤ
rx_event = record {
  rssi_dbm = negsuc 799;
  snr_db = pos 95;
  freq_err_hz = negsuc 99;
  timestamp_us = pos 1_000_000;
  crc_valid = true;
  packets_dropped = pos 0;
  origin = RxOrigin.ota;
  packet = 104 ∷ 105 ∷ [];
}

rx_decoded : Rx.decode in_tenths rx_bytes ≡ ok rx_event
unfolding Rx.decode enum_call find_value is_bit truth
rx_decoded = refl

rx_encoded : Rx.encode in_tenths rx_event ≡ ok rx_bytes
unfolding Rx.encode pack_unsigned pack_signed in_unsigned in_signed pattern_of bytes_of byte_of
    bit_of
rx_encoded = refl
