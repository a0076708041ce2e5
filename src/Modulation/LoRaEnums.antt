-- ===== src/Modulation/LoRaEnums.antt =====
-- The class ModulationId and the LoRa enums of donglora/modulation.py: the members in the order of their
-- declaration, and their wire values.
use client_py.Prelude.{ℕ, ◌≡◌, refl, List, [], ◌∷◌}
use client_py.Python.Result.{ok}
use client_py.Python.Enum.{IntEnum, find_value}

pub data ModulationId : Type 0 where
  lora fsk_gfsk lr_fhss flrc : ModulationId

abbrev pub modulation_id_value : ModulationId → ℕ
modulation_id_value ModulationId.lora = 1
modulation_id_value ModulationId.fsk_gfsk = 2
modulation_id_value ModulationId.lr_fhss = 3
modulation_id_value ModulationId.flrc = 4

abbrev pub modulation_id_members : List ModulationId
modulation_id_members =
    ModulationId.lora ∷ ModulationId.fsk_gfsk ∷ ModulationId.lr_fhss ∷ ModulationId.flrc ∷ []

pub modulation_id_find_value-value :
    (m : ModulationId)
    → find_value modulation_id_value (modulation_id_value m) modulation_id_members ≡ ok m
unfolding find_value
modulation_id_find_value-value ModulationId.lora = refl
modulation_id_find_value-value ModulationId.fsk_gfsk = refl
modulation_id_find_value-value ModulationId.lr_fhss = refl
modulation_id_find_value-value ModulationId.flrc = refl

instance abbrev pub modulation_id_enum : IntEnum ModulationId
modulation_id_enum = record {
  value = modulation_id_value;
  members = modulation_id_members;
  find_value-value = modulation_id_find_value-value;
}

pub data LoRaBandwidth : Type 0 where
  khz_7_81 khz_10_42 khz_15_63 khz_20_83 khz_31_25 : LoRaBandwidth
  khz_41_67 khz_62_5 khz_125 khz_250 khz_500 : LoRaBandwidth
  khz_200 khz_400 khz_800 khz_1600 : LoRaBandwidth

abbrev pub lora_bandwidth_value : LoRaBandwidth → ℕ
lora_bandwidth_value LoRaBandwidth.khz_7_81 = 0
lora_bandwidth_value LoRaBandwidth.khz_10_42 = 1
lora_bandwidth_value LoRaBandwidth.khz_15_63 = 2
lora_bandwidth_value LoRaBandwidth.khz_20_83 = 3
lora_bandwidth_value LoRaBandwidth.khz_31_25 = 4
lora_bandwidth_value LoRaBandwidth.khz_41_67 = 5
lora_bandwidth_value LoRaBandwidth.khz_62_5 = 6
lora_bandwidth_value LoRaBandwidth.khz_125 = 7
lora_bandwidth_value LoRaBandwidth.khz_250 = 8
lora_bandwidth_value LoRaBandwidth.khz_500 = 9
lora_bandwidth_value LoRaBandwidth.khz_200 = 10
lora_bandwidth_value LoRaBandwidth.khz_400 = 11
lora_bandwidth_value LoRaBandwidth.khz_800 = 12
lora_bandwidth_value LoRaBandwidth.khz_1600 = 13

abbrev pub lora_bandwidth_members : List LoRaBandwidth
lora_bandwidth_members =
    LoRaBandwidth.khz_7_81 ∷ LoRaBandwidth.khz_10_42 ∷ LoRaBandwidth.khz_15_63
    ∷ LoRaBandwidth.khz_20_83 ∷ LoRaBandwidth.khz_31_25 ∷ LoRaBandwidth.khz_41_67
    ∷ LoRaBandwidth.khz_62_5 ∷ LoRaBandwidth.khz_125 ∷ LoRaBandwidth.khz_250 ∷ LoRaBandwidth.khz_500
    ∷ LoRaBandwidth.khz_200 ∷ LoRaBandwidth.khz_400 ∷ LoRaBandwidth.khz_800 ∷ LoRaBandwidth.khz_1600
    ∷ []

pub lora_bandwidth_find_value-value :
    (m : LoRaBandwidth)
    → find_value lora_bandwidth_value (lora_bandwidth_value m) lora_bandwidth_members ≡ ok m
unfolding find_value
lora_bandwidth_find_value-value LoRaBandwidth.khz_7_81 = refl
lora_bandwidth_find_value-value LoRaBandwidth.khz_10_42 = refl
lora_bandwidth_find_value-value LoRaBandwidth.khz_15_63 = refl
lora_bandwidth_find_value-value LoRaBandwidth.khz_20_83 = refl
lora_bandwidth_find_value-value LoRaBandwidth.khz_31_25 = refl
lora_bandwidth_find_value-value LoRaBandwidth.khz_41_67 = refl
lora_bandwidth_find_value-value LoRaBandwidth.khz_62_5 = refl
lora_bandwidth_find_value-value LoRaBandwidth.khz_125 = refl
lora_bandwidth_find_value-value LoRaBandwidth.khz_250 = refl
lora_bandwidth_find_value-value LoRaBandwidth.khz_500 = refl
lora_bandwidth_find_value-value LoRaBandwidth.khz_200 = refl
lora_bandwidth_find_value-value LoRaBandwidth.khz_400 = refl
lora_bandwidth_find_value-value LoRaBandwidth.khz_800 = refl
lora_bandwidth_find_value-value LoRaBandwidth.khz_1600 = refl

instance abbrev pub lora_bandwidth_enum : IntEnum LoRaBandwidth
lora_bandwidth_enum = record {
  value = lora_bandwidth_value;
  members = lora_bandwidth_members;
  find_value-value = lora_bandwidth_find_value-value;
}

pub data LoRaCodingRate : Type 0 where
  cr_4_5 cr_4_6 cr_4_7 cr_4_8 : LoRaCodingRate

abbrev pub lora_coding_rate_value : LoRaCodingRate → ℕ
lora_coding_rate_value LoRaCodingRate.cr_4_5 = 0
lora_coding_rate_value LoRaCodingRate.cr_4_6 = 1
lora_coding_rate_value LoRaCodingRate.cr_4_7 = 2
lora_coding_rate_value LoRaCodingRate.cr_4_8 = 3

abbrev pub lora_coding_rate_members : List LoRaCodingRate
lora_coding_rate_members =
    LoRaCodingRate.cr_4_5 ∷ LoRaCodingRate.cr_4_6 ∷ LoRaCodingRate.cr_4_7 ∷ LoRaCodingRate.cr_4_8
    ∷ []

pub lora_coding_rate_find_value-value :
    (m : LoRaCodingRate)
    → find_value lora_coding_rate_value (lora_coding_rate_value m) lora_coding_rate_members ≡ ok m
unfolding find_value
lora_coding_rate_find_value-value LoRaCodingRate.cr_4_5 = refl
lora_coding_rate_find_value-value LoRaCodingRate.cr_4_6 = refl
lora_coding_rate_find_value-value LoRaCodingRate.cr_4_7 = refl
lora_coding_rate_find_value-value LoRaCodingRate.cr_4_8 = refl

instance abbrev pub lora_coding_rate_enum : IntEnum LoRaCodingRate
lora_coding_rate_enum = record {
  value = lora_coding_rate_value;
  members = lora_coding_rate_members;
  find_value-value = lora_coding_rate_find_value-value;
}

pub data LoRaHeaderMode : Type 0 where
  explicit implicit : LoRaHeaderMode

abbrev pub lora_header_mode_value : LoRaHeaderMode → ℕ
lora_header_mode_value LoRaHeaderMode.explicit = 0
lora_header_mode_value LoRaHeaderMode.implicit = 1

abbrev pub lora_header_mode_members : List LoRaHeaderMode
lora_header_mode_members = LoRaHeaderMode.explicit ∷ LoRaHeaderMode.implicit ∷ []

pub lora_header_mode_find_value-value :
    (m : LoRaHeaderMode)
    → find_value lora_header_mode_value (lora_header_mode_value m) lora_header_mode_members ≡ ok m
unfolding find_value
lora_header_mode_find_value-value LoRaHeaderMode.explicit = refl
lora_header_mode_find_value-value LoRaHeaderMode.implicit = refl

instance abbrev pub lora_header_mode_enum : IntEnum LoRaHeaderMode
lora_header_mode_enum = record {
  value = lora_header_mode_value;
  members = lora_header_mode_members;
  find_value-value = lora_header_mode_find_value-value;
}
