-- ===== src/Connect.antt =====
-- donglora/connect.py: _prepare_config, what connect() sends instead of the configuration asked for.
pub mod Caps
pub mod Dial
pub mod Transport
pub mod Open
pub mod Supported
use client_py.Prelude.{ℕ, ◌^◌, bit_and, Bool, true, false, not, ◌&&◌, ◌==◌, if◌then◌else◌}
use client_py.Prelude.Int.{ℤ, pos, negsuc, leb_ℤ, ltb_ℤ}
use client_py.Python.Result.{Error, value_error}
use client_py.Python.Enum.{int_of}
use client_py.Errors.{DongloraError, config_not_supported}
use client_py.Info.{Info}
use client_py.Modulation.{Modulation, lora, fsk, lr_fhss, flrc}
use client_py.Modulation.LoRa.{LoRaConfig}
use client_py.Modulation.LoRaEnums.{lora_bandwidth_enum}

-- What _prepare_config does: a configuration, an exception of the client, or one of Python.
pub data Prepared (A : Type 0) : Type 0 where
  prepared : A → Prepared A
  rejected : DongloraError → Prepared A
  crashed : Error → Prepared A

-- `bitmap & (1 << k)` as a condition, at k ≥ 0; a negative number has the bits of its two's complement.
unfoldable pub has_bit : ℤ → ℕ → Bool
has_bit (pos n) k = not (bit_and n (2 ^ k) == 0)
has_bit (negsuc n) k = bit_and n (2 ^ k) == 0

-- The clamp of tx_power_dbm.
unfoldable pub clamp_power : Info → LoRaConfig → LoRaConfig
clamp_power info cfg =
    if ltb_ℤ info.tx_power_max_dbm cfg.tx_power_dbm
    then record cfg { tx_power_dbm = info.tx_power_max_dbm }
    else if ltb_ℤ cfg.tx_power_dbm info.tx_power_min_dbm
    then record cfg { tx_power_dbm = info.tx_power_min_dbm }
    else cfg

-- The tests of `sf`: `1 << sf` raises at a negative sf.
abbrev pub after_sf : Info → ℤ → Prepared LoRaConfig → Prepared LoRaConfig
after_sf info (negsuc n) rest = crashed value_error
after_sf info (pos sf) rest =
    if has_bit info.supported_sf_bitmap sf then rest else rejected config_not_supported

unfoldable pub prepare_lora : Info → LoRaConfig → Prepared LoRaConfig
unfolding has_bit clamp_power
prepare_lora info cfg =
    if not (leb_ℤ info.freq_min_hz cfg.freq_hz && leb_ℤ cfg.freq_hz info.freq_max_hz)
    then rejected config_not_supported
    else after_sf info cfg.sf (
        if has_bit info.supported_bw_bitmap (int_of cfg.bw)
        then prepared (clamp_power info cfg)
        else rejected config_not_supported)

abbrev as_lora : Prepared LoRaConfig → Prepared Modulation
as_lora (prepared cfg) = prepared (lora cfg)
as_lora (rejected e) = rejected e
as_lora (crashed e) = crashed e

unfoldable pub prepare_config : Info → Modulation → Prepared Modulation
unfolding prepare_lora
prepare_config info (lora cfg) = as_lora (prepare_lora info cfg)
prepare_config info (fsk cfg) = prepared (fsk cfg)
prepare_config info (lr_fhss cfg) = prepared (lr_fhss cfg)
prepare_config info (flrc cfg) = prepared (flrc cfg)
