-- ===== src/Modulation/OtherEnums.antt =====
-- The LR-FHSS and FLRC enums of donglora/modulation.py: the members in the order of their
-- declaration, and their wire values.
use client_py.Prelude.{ℕ, ◌≡◌, refl, List, [], ◌∷◌}
use client_py.Python.Result.{ok}
use client_py.Python.Enum.{IntEnum, find_value}

pub data LrFhssBandwidth : Type 0 where
  khz_39 khz_86 khz_137 khz_184 khz_336 : LrFhssBandwidth
  khz_387 khz_723 khz_1523 : LrFhssBandwidth

abbrev pub lr_fhss_bandwidth_value : LrFhssBandwidth → ℕ
lr_fhss_bandwidth_value LrFhssBandwidth.khz_39 = 0
lr_fhss_bandwidth_value LrFhssBandwidth.khz_86 = 1
lr_fhss_bandwidth_value LrFhssBandwidth.khz_137 = 2
lr_fhss_bandwidth_value LrFhssBandwidth.khz_184 = 3
lr_fhss_bandwidth_value LrFhssBandwidth.khz_336 = 4
lr_fhss_bandwidth_value LrFhssBandwidth.khz_387 = 5
lr_fhss_bandwidth_value LrFhssBandwidth.khz_723 = 6
lr_fhss_bandwidth_value LrFhssBandwidth.khz_1523 = 7

abbrev pub lr_fhss_bandwidth_members : List LrFhssBandwidth
lr_fhss_bandwidth_members =
    LrFhssBandwidth.khz_39 ∷ LrFhssBandwidth.khz_86 ∷ LrFhssBandwidth.khz_137
    ∷ LrFhssBandwidth.khz_184 ∷ LrFhssBandwidth.khz_336 ∷ LrFhssBandwidth.khz_387
    ∷ LrFhssBandwidth.khz_723 ∷ LrFhssBandwidth.khz_1523 ∷ []

pub lr_fhss_bandwidth_find_value-value :
    (m : LrFhssBandwidth)
    → find_value lr_fhss_bandwidth_value (lr_fhss_bandwidth_value m) lr_fhss_bandwidth_members
      ≡ ok m
unfolding find_value
lr_fhss_bandwidth_find_value-value LrFhssBandwidth.khz_39 = refl
lr_fhss_bandwidth_find_value-value LrFhssBandwidth.khz_86 = refl
lr_fhss_bandwidth_find_value-value LrFhssBandwidth.khz_137 = refl
lr_fhss_bandwidth_find_value-value LrFhssBandwidth.khz_184 = refl
lr_fhss_bandwidth_find_value-value LrFhssBandwidth.khz_336 = refl
lr_fhss_bandwidth_find_value-value LrFhssBandwidth.khz_387 = refl
lr_fhss_bandwidth_find_value-value LrFhssBandwidth.khz_723 = refl
lr_fhss_bandwidth_find_value-value LrFhssBandwidth.khz_1523 = refl

instance abbrev pub lr_fhss_bandwidth_enum : IntEnum LrFhssBandwidth
lr_fhss_bandwidth_enum = record {
  value = lr_fhss_bandwidth_value;
  members = lr_fhss_bandwidth_members;
  find_value-value = lr_fhss_bandwidth_find_value-value;
}

pub data LrFhssCodingRate : Type 0 where
  cr_5_6 cr_2_3 cr_1_2 cr_1_3 : LrFhssCodingRate

abbrev pub lr_fhss_coding_rate_value : LrFhssCodingRate → ℕ
lr_fhss_coding_rate_value LrFhssCodingRate.cr_5_6 = 0
lr_fhss_coding_rate_value LrFhssCodingRate.cr_2_3 = 1
lr_fhss_coding_rate_value LrFhssCodingRate.cr_1_2 = 2
lr_fhss_coding_rate_value LrFhssCodingRate.cr_1_3 = 3

abbrev pub lr_fhss_coding_rate_members : List LrFhssCodingRate
lr_fhss_coding_rate_members =
    LrFhssCodingRate.cr_5_6 ∷ LrFhssCodingRate.cr_2_3 ∷ LrFhssCodingRate.cr_1_2
    ∷ LrFhssCodingRate.cr_1_3 ∷ []

pub lr_fhss_coding_rate_find_value-value :
    (m : LrFhssCodingRate)
    → find_value lr_fhss_coding_rate_value (lr_fhss_coding_rate_value m) lr_fhss_coding_rate_members
      ≡ ok m
unfolding find_value
lr_fhss_coding_rate_find_value-value LrFhssCodingRate.cr_5_6 = refl
lr_fhss_coding_rate_find_value-value LrFhssCodingRate.cr_2_3 = refl
lr_fhss_coding_rate_find_value-value LrFhssCodingRate.cr_1_2 = refl
lr_fhss_coding_rate_find_value-value LrFhssCodingRate.cr_1_3 = refl

instance abbrev pub lr_fhss_coding_rate_enum : IntEnum LrFhssCodingRate
lr_fhss_coding_rate_enum = record {
  value = lr_fhss_coding_rate_value;
  members = lr_fhss_coding_rate_members;
  find_value-value = lr_fhss_coding_rate_find_value-value;
}

pub data LrFhssGrid : Type 0 where
  khz_25 khz_3_9 : LrFhssGrid

abbrev pub lr_fhss_grid_value : LrFhssGrid → ℕ
lr_fhss_grid_value LrFhssGrid.khz_25 = 0
lr_fhss_grid_value LrFhssGrid.khz_3_9 = 1

abbrev pub lr_fhss_grid_members : List LrFhssGrid
lr_fhss_grid_members = LrFhssGrid.khz_25 ∷ LrFhssGrid.khz_3_9 ∷ []

pub lr_fhss_grid_find_value-value :
    (m : LrFhssGrid)
    → find_value lr_fhss_grid_value (lr_fhss_grid_value m) lr_fhss_grid_members ≡ ok m
unfolding find_value
lr_fhss_grid_find_value-value LrFhssGrid.khz_25 = refl
lr_fhss_grid_find_value-value LrFhssGrid.khz_3_9 = refl

instance abbrev pub lr_fhss_grid_enum : IntEnum LrFhssGrid
lr_fhss_grid_enum = record {
  value = lr_fhss_grid_value;
  members = lr_fhss_grid_members;
  find_value-value = lr_fhss_grid_find_value-value;
}

pub data FlrcBitrate : Type 0 where
  kbps_2600 kbps_2080 kbps_1300 kbps_1040 kbps_650 : FlrcBitrate
  kbps_520 kbps_325 kbps_260 : FlrcBitrate

abbrev pub flrc_bitrate_value : FlrcBitrate → ℕ
flrc_bitrate_value FlrcBitrate.kbps_2600 = 0
flrc_bitrate_value FlrcBitrate.kbps_2080 = 1
flrc_bitrate_value FlrcBitrate.kbps_1300 = 2
flrc_bitrate_value FlrcBitrate.kbps_1040 = 3
flrc_bitrate_value FlrcBitrate.kbps_650 = 4
flrc_bitrate_value FlrcBitrate.kbps_520 = 5
flrc_bitrate_value FlrcBitrate.kbps_325 = 6
flrc_bitrate_value FlrcBitrate.kbps_260 = 7

abbrev pub flrc_bitrate_members : List FlrcBitrate
flrc_bitrate_members =
    FlrcBitrate.kbps_2600 ∷ FlrcBitrate.kbps_2080 ∷ FlrcBitrate.kbps_1300 ∷ FlrcBitrate.kbps_1040
    ∷ FlrcBitrate.kbps_650 ∷ FlrcBitrate.kbps_520 ∷ FlrcBitrate.kbps_325 ∷ FlrcBitrate.kbps_260 ∷ []

pub flrc_bitrate_find_value-value :
    (m : FlrcBitrate)
    → find_value flrc_bitrate_value (flrc_bitrate_value m) flrc_bitrate_members ≡ ok m
unfolding find_value
flrc_bitrate_find_value-value FlrcBitrate.kbps_2600 = refl
flrc_bitrate_find_value-value FlrcBitrate.kbps_2080 = refl
flrc_bitrate_find_value-value FlrcBitrate.kbps_1300 = refl
flrc_bitrate_find_value-value FlrcBitrate.kbps_1040 = refl
flrc_bitrate_find_value-value FlrcBitrate.kbps_650 = refl
flrc_bitrate_find_value-value FlrcBitrate.kbps_520 = refl
flrc_bitrate_find_value-value FlrcBitrate.kbps_325 = refl
flrc_bitrate_find_value-value FlrcBitrate.kbps_260 = refl

instance abbrev pub flrc_bitrate_enum : IntEnum FlrcBitrate
flrc_bitrate_enum = record {
  value = flrc_bitrate_value;
  members = flrc_bitrate_members;
  find_value-value = flrc_bitrate_find_value-value;
}

pub data FlrcCodingRate : Type 0 where
  cr_1_2 cr_3_4 cr_1_1 : FlrcCodingRate

abbrev pub flrc_coding_rate_value : FlrcCodingRate → ℕ
flrc_coding_rate_value FlrcCodingRate.cr_1_2 = 0
flrc_coding_rate_value FlrcCodingRate.cr_3_4 = 1
flrc_coding_rate_value FlrcCodingRate.cr_1_1 = 2

abbrev pub flrc_coding_rate_members : List FlrcCodingRate
flrc_coding_rate_members =
    FlrcCodingRate.cr_1_2 ∷ FlrcCodingRate.cr_3_4 ∷ FlrcCodingRate.cr_1_1 ∷ []

pub flrc_coding_rate_find_value-value :
    (m : FlrcCodingRate)
    → find_value flrc_coding_rate_value (flrc_coding_rate_value m) flrc_coding_rate_members ≡ ok m
unfolding find_value
flrc_coding_rate_find_value-value FlrcCodingRate.cr_1_2 = refl
flrc_coding_rate_find_value-value FlrcCodingRate.cr_3_4 = refl
flrc_coding_rate_find_value-value FlrcCodingRate.cr_1_1 = refl

instance abbrev pub flrc_coding_rate_enum : IntEnum FlrcCodingRate
flrc_coding_rate_enum = record {
  value = flrc_coding_rate_value;
  members = flrc_coding_rate_members;
  find_value-value = flrc_coding_rate_find_value-value;
}

pub data FlrcBt : Type 0 where
  off bt_0_5 bt_1_0 : FlrcBt

abbrev pub flrc_bt_value : FlrcBt → ℕ
flrc_bt_value FlrcBt.off = 0
flrc_bt_value FlrcBt.bt_0_5 = 1
flrc_bt_value FlrcBt.bt_1_0 = 2

abbrev pub flrc_bt_members : List FlrcBt
flrc_bt_members = FlrcBt.off ∷ FlrcBt.bt_0_5 ∷ FlrcBt.bt_1_0 ∷ []

pub flrc_bt_find_value-value :
    (m : FlrcBt) → find_value flrc_bt_value (flrc_bt_value m) flrc_bt_members ≡ ok m
unfolding find_value
flrc_bt_find_value-value FlrcBt.off = refl
flrc_bt_find_value-value FlrcBt.bt_0_5 = refl
flrc_bt_find_value-value FlrcBt.bt_1_0 = refl

instance abbrev pub flrc_bt_enum : IntEnum FlrcBt
flrc_bt_enum = record {
  value = flrc_bt_value;
  members = flrc_bt_members;
  find_value-value = flrc_bt_find_value-value;
}

pub data FlrcPreambleLen : Type 0 where
  bits_8 bits_12 bits_16 bits_20 bits_24 : FlrcPreambleLen
  bits_28 bits_32 : FlrcPreambleLen

abbrev pub flrc_preamble_len_value : FlrcPreambleLen → ℕ
flrc_preamble_len_value FlrcPreambleLen.bits_8 = 0
flrc_preamble_len_value FlrcPreambleLen.bits_12 = 1
flrc_preamble_len_value FlrcPreambleLen.bits_16 = 2
flrc_preamble_len_value FlrcPreambleLen.bits_20 = 3
flrc_preamble_len_value FlrcPreambleLen.bits_24 = 4
flrc_preamble_len_value FlrcPreambleLen.bits_28 = 5
flrc_preamble_len_value FlrcPreambleLen.bits_32 = 6

abbrev pub flrc_preamble_len_members : List FlrcPreambleLen
flrc_preamble_len_members =
    FlrcPreambleLen.bits_8 ∷ FlrcPreambleLen.bits_12 ∷ FlrcPreambleLen.bits_16
    ∷ FlrcPreambleLen.bits_20 ∷ FlrcPreambleLen.bits_24 ∷ FlrcPreambleLen.bits_28
    ∷ FlrcPreambleLen.bits_32 ∷ []

pub flrc_preamble_len_find_value-value :
    (m : FlrcPreambleLen)
    → find_value flrc_preamble_len_value (flrc_preamble_len_value m) flrc_preamble_len_members
      ≡ ok m
unfolding find_value
flrc_preamble_len_find_value-value FlrcPreambleLen.bits_8 = refl
flrc_preamble_len_find_value-value FlrcPreambleLen.bits_12 = refl
flrc_preamble_len_find_value-value FlrcPreambleLen.bits_16 = refl
flrc_preamble_len_find_value-value FlrcPreambleLen.bits_20 = refl
flrc_preamble_len_find_value-value FlrcPreambleLen.bits_24 = refl
flrc_preamble_len_find_value-value FlrcPreambleLen.bits_28 = refl
flrc_preamble_len_find_value-value FlrcPreambleLen.bits_32 = refl

instance abbrev pub flrc_preamble_len_enum : IntEnum FlrcPreambleLen
flrc_preamble_len_enum = record {
  value = flrc_preamble_len_value;
  members = flrc_preamble_len_members;
  find_value-value = flrc_preamble_len_find_value-value;
}
