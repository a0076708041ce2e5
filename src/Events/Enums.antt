-- ===== src/Events/Enums.antt =====
-- The IntEnum classes of donglora/events.py.
use client_py.Prelude.{ℕ, ◌≡◌, refl, List, [], ◌∷◌}
use client_py.Python.Result.{ok}
use client_py.Python.Enum.{IntEnum, find_value}

pub data SetConfigResultCode : Type 0 where
  applied already_matched locked_mismatch : SetConfigResultCode

abbrev pub set_config_result_code_value : SetConfigResultCode → ℕ
set_config_result_code_value SetConfigResultCode.applied = 0
set_config_result_code_value SetConfigResultCode.already_matched = 1
set_config_result_code_value SetConfigResultCode.locked_mismatch = 2

abbrev pub set_config_result_code_members : List SetConfigResultCode
set_config_result_code_members =
    SetConfigResultCode.applied ∷ SetConfigResultCode.already_matched
    ∷ SetConfigResultCode.locked_mismatch ∷ []

pub set_config_result_code_find_value-value :
    (m : SetConfigResultCode)
    → find_value set_config_result_code_value
        (set_config_result_code_value m)
        set_config_result_code_members
      ≡ ok m
unfolding find_value
set_config_result_code_find_value-value SetConfigResultCode.applied = refl
set_config_result_code_find_value-value SetConfigResultCode.already_matched = refl
set_config_result_code_find_value-value SetConfigResultCode.locked_mismatch = refl

instance abbrev pub set_config_result_code_enum : IntEnum SetConfigResultCode
set_config_result_code_enum = record {
  value = set_config_result_code_value;
  members = set_config_result_code_members;
  find_value-value = set_config_result_code_find_value-value;
}

pub data Owner : Type 0 where
  none mine other : Owner

abbrev pub owner_value : Owner → ℕ
owner_value Owner.none = 0
owner_value Owner.mine = 1
owner_value Owner.other = 2

abbrev pub owner_members : List Owner
owner_members = Owner.none ∷ Owner.mine ∷ Owner.other ∷ []

pub owner_find_value-value :
    (m : Owner) → find_value owner_value (owner_value m) owner_members ≡ ok m
unfolding find_value
owner_find_value-value Owner.none = refl
owner_find_value-value Owner.mine = refl
owner_find_value-value Owner.other = refl

instance abbrev pub owner_enum : IntEnum Owner
owner_enum = record {
  value = owner_value;
  members = owner_members;
  find_value-value = owner_find_value-value;
}

pub data TxResult : Type 0 where
  transmitted channel_busy cancelled : TxResult

abbrev pub tx_result_value : TxResult → ℕ
tx_result_value TxResult.transmitted = 0
tx_result_value TxResult.channel_busy = 1
tx_result_value TxResult.cancelled = 2

abbrev pub tx_result_members : List TxResult
tx_result_members = TxResult.transmitted ∷ TxResult.channel_busy ∷ TxResult.cancelled ∷ []

pub tx_result_find_value-value :
    (m : TxResult) → find_value tx_result_value (tx_result_value m) tx_result_members ≡ ok m
unfolding find_value
tx_result_find_value-value TxResult.transmitted = refl
tx_result_find_value-value TxResult.channel_busy = refl
tx_result_find_value-value TxResult.cancelled = refl

instance abbrev pub tx_result_enum : IntEnum TxResult
tx_result_enum = record {
  value = tx_result_value;
  members = tx_result_members;
  find_value-value = tx_result_find_value-value;
}

pub data RxOrigin : Type 0 where
  ota local_loopback : RxOrigin

abbrev pub rx_origin_value : RxOrigin → ℕ
rx_origin_value RxOrigin.ota = 0
rx_origin_value RxOrigin.local_loopback = 1

abbrev pub rx_origin_members : List RxOrigin
rx_origin_members = RxOrigin.ota ∷ RxOrigin.local_loopback ∷ []

pub rx_origin_find_value-value :
    (m : RxOrigin) → find_value rx_origin_value (rx_origin_value m) rx_origin_members ≡ ok m
unfolding find_value
rx_origin_find_value-value RxOrigin.ota = refl
rx_origin_find_value-value RxOrigin.local_loopback = refl

instance abbrev pub rx_origin_enum : IntEnum RxOrigin
rx_origin_enum = record {
  value = rx_origin_value;
  members = rx_origin_members;
  find_value-value = rx_origin_find_value-value;
}
