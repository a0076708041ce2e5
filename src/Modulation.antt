-- ===== src/Modulation.antt =====
-- donglora/modulation.py: the sum type of the SET_CONFIG payloads. The enums and the four config
-- classes are in the child modules.
pub mod LoRaEnums
pub mod OtherEnums
pub mod LoRa
pub mod Fsk
pub mod LrFhss
pub mod Flrc
pub mod RoundTrip
pub mod Bytewise
use client_py.Prelude.{ℕ, [], ◌∷◌, ◌++◌, ◌==◌, if◌then◌else◌}
use client_py.Prelude.Int.{pos}
use client_py.Python.Result.{Result, ok, err, value_error, ◌>>=◌}
use client_py.Python.Struct.{Bytes, bytes_of}
use client_py.Python.Enum.{int_of}
use LoRaEnums.{ModulationId, modulation_id_enum}
use LoRa.{LoRaConfig}
use Fsk.{FskConfig}
use LrFhss.{LrFhssConfig}
use Flrc.{FlrcConfig}

pub data Modulation : Type 0 where
  lora : LoRaConfig → Modulation
  fsk : FskConfig → Modulation
  lr_fhss : LrFhssConfig → Modulation
  flrc : FlrcConfig → Modulation

unfoldable pub encode_modulation : Modulation → Result Bytes
encode_modulation (lora c) = do
  prefix ← bytes_of (pos (int_of ModulationId.lora) ∷ [])
  params ← LoRa.encode c
  ok (prefix ++ params)
encode_modulation (fsk c) = do
  prefix ← bytes_of (pos (int_of ModulationId.fsk_gfsk) ∷ [])
  params ← Fsk.encode c
  ok (prefix ++ params)
encode_modulation (lr_fhss c) = do
  prefix ← bytes_of (pos (int_of ModulationId.lr_fhss) ∷ [])
  params ← LrFhss.encode c
  ok (prefix ++ params)
encode_modulation (flrc c) = do
  prefix ← bytes_of (pos (int_of ModulationId.flrc) ∷ [])
  params ← Flrc.encode c
  ok (prefix ++ params)

unfoldable pub decode_modulation : Bytes → Result Modulation
decode_modulation [] = err value_error
decode_modulation (mod_id ∷ params) =
    if mod_id == int_of ModulationId.lora
    then (do c ← LoRa.decode params; ok (lora c))
    else if mod_id == int_of ModulationId.fsk_gfsk
    then (do c ← Fsk.decode params; ok (fsk c))
    else if mod_id == int_of ModulationId.lr_fhss
    then (do c ← LrFhss.decode params; ok (lr_fhss c))
    else if mod_id == int_of ModulationId.flrc
    then (do c ← Flrc.decode params; ok (flrc c))
    else err value_error
