-- ===== src/Info/Chip.antt =====
-- The class RadioChipId of donglora/info.py.
use client_py.Prelude.{ℕ, ◌≡◌, refl, List, [], ◌∷◌}
use client_py.Python.Result.{ok}
use client_py.Python.Enum.{IntEnum, find_value}

pub data RadioChipId : Type 0 where
  unknown sx1261 sx1262 sx1268 llcc68 : RadioChipId
  sx1272 sx1276 sx1277 sx1278 sx1279 : RadioChipId
  sx1280 sx1281 lr1110 lr1120 lr1121 : RadioChipId
  lr2021 : RadioChipId

abbrev pub radio_chip_id_value : RadioChipId → ℕ
radio_chip_id_value RadioChipId.unknown = 0
radio_chip_id_value RadioChipId.sx1261 = 1
radio_chip_id_value RadioChipId.sx1262 = 2
radio_chip_id_value RadioChipId.sx1268 = 3
radio_chip_id_value RadioChipId.llcc68 = 4
radio_chip_id_value RadioChipId.sx1272 = 0x10
radio_chip_id_value RadioChipId.sx1276 = 0x11
radio_chip_id_value RadioChipId.sx1277 = 0x12
radio_chip_id_value RadioChipId.sx1278 = 0x13
radio_chip_id_value RadioChipId.sx1279 = 0x14
radio_chip_id_value RadioChipId.sx1280 = 0x20
radio_chip_id_value RadioChipId.sx1281 = 0x21
radio_chip_id_value RadioChipId.lr1110 = 0x30
radio_chip_id_value RadioChipId.lr1120 = 0x31
radio_chip_id_value RadioChipId.lr1121 = 0x32
radio_chip_id_value RadioChipId.lr2021 = 0x40

abbrev pub radio_chip_id_members : List RadioChipId
radio_chip_id_members =
    RadioChipId.unknown ∷ RadioChipId.sx1261 ∷ RadioChipId.sx1262 ∷ RadioChipId.sx1268
    ∷ RadioChipId.llcc68 ∷ RadioChipId.sx1272 ∷ RadioChipId.sx1276 ∷ RadioChipId.sx1277
    ∷ RadioChipId.sx1278 ∷ RadioChipId.sx1279 ∷ RadioChipId.sx1280 ∷ RadioChipId.sx1281
    ∷ RadioChipId.lr1110 ∷ RadioChipId.lr1120 ∷ RadioChipId.lr1121 ∷ RadioChipId.lr2021 ∷ []

pub radio_chip_id_find_value-value :
    (m : RadioChipId)
    → find_value radio_chip_id_value (radio_chip_id_value m) radio_chip_id_members ≡ ok m
unfolding find_value
radio_chip_id_find_value-value RadioChipId.unknown = refl
radio_chip_id_find_value-value RadioChipId.sx1261 = refl
radio_chip_id_find_value-value RadioChipId.sx1262 = refl
radio_chip_id_find_value-value RadioChipId.sx1268 = refl
radio_chip_id_find_value-value RadioChipId.llcc68 = refl
radio_chip_id_find_value-value RadioChipId.sx1272 = refl
radio_chip_id_find_value-value RadioChipId.sx1276 = refl
radio_chip_id_find_value-value RadioChipId.sx1277 = refl
radio_chip_id_find_value-value RadioChipId.sx1278 = refl
radio_chip_id_find_value-value RadioChipId.sx1279 = refl
radio_chip_id_find_value-value RadioChipId.sx1280 = refl
radio_chip_id_find_value-value RadioChipId.sx1281 = refl
radio_chip_id_find_value-value RadioChipId.lr1110 = refl
radio_chip_id_find_value-value RadioChipId.lr1120 = refl
radio_chip_id_find_value-value RadioChipId.lr1121 = refl
radio_chip_id_find_value-value RadioChipId.lr2021 = refl

instance abbrev pub radio_chip_id_enum : IntEnum RadioChipId
radio_chip_id_enum = record {
  value = radio_chip_id_value;
  members = radio_chip_id_members;
  find_value-value = radio_chip_id_find_value-value;
}
