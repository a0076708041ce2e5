-- ===== src/Examples/Configs.antt =====
-- Runs of the configuration checks of connect.py.
use client_py.Prelude.{◌≡◌, refl, arith, ltb, ◌&&◌}
use client_py.Prelude.Int.{pos, negsuc}
use client_py.Errors.{config_not_supported}
use client_py.Modulation.LoRa
use client_py.Modulation.LoRa.{LoRaConfig}
use client_py.Connect.{prepared, rejected, has_bit, clamp_power, prepare_lora}
use client_py.Connect.Caps.{
  Allowed, allowed, IsNearest, over, prepare_lora_sound, prepare_lora_complete,
}
use client_py.Info.{supported_sf}
use client_py.Connect.Supported.{contains, contains-supported_sf}
use client_py.Examples.Payloads.{sample_info}

-- 30 dBm are asked for, and the device gives 22 at most.
abbrev loud : LoRaConfig
loud = record LoRa.default { tx_power_dbm = pos 30 }

abbrev clamped : LoRaConfig
clamped = record LoRa.default { tx_power_dbm = pos 22 }

loud_prepared : prepare_lora sample_info loud ≡ prepared clamped
unfolding prepare_lora has_bit clamp_power
loud_prepared = refl

out_of_band :
    prepare_lora sample_info (record LoRa.default { freq_hz = pos 2_400_000_000 })
    ≡ rejected config_not_supported
unfolding prepare_lora
out_of_band = refl

prepare_lora_sound_example :
    Allowed sample_info loud
    × IsNearest (negsuc 8) (pos 22) (pos 30) (pos 22)
    × (clamped ≡ record loud { tx_power_dbm = pos 22 })
prepare_lora_sound_example = prepare_lora_sound sample_info loud clamped (omega arith) loud_prepared

loud-Allowed : Allowed sample_info loud
unfolding has_bit
loud-Allowed = allowed 7 refl (omega arith) (omega arith) refl refl

prepare_lora_complete_example :
    (prepare_lora sample_info loud ≡ prepared clamped)
    × (prepare_lora sample_info clamped ≡ prepared clamped)
prepare_lora_complete_example =
    prepare_lora_complete sample_info loud (pos 22) (omega arith) loud-Allowed (over (omega arith))

contains-supported_sf_example :
    contains 7 (supported_sf sample_info) ≡ (ltb 7 16 && has_bit (pos 0x1fe0) 7)
contains-supported_sf_example = contains-supported_sf sample_info 7
