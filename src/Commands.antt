-- ===== src/Commands.antt =====
-- donglora/commands.py: the type ids and payloads of the commands.
use client_py.Prelude.{ℕ, Bool, ◌==◌, not, [], ◌++◌, if◌then◌else◌, length}
use client_py.Prelude.Int.{ℤ, pos}
use client_py.Python.Result.{Result, ok, value_error, ◌>>=◌, ◌>>◌, guard}
use client_py.Python.Struct.{Bytes, pack_unsigned}
use client_py.Modulation.{Modulation, encode_modulation}

abbrev pub type_ping : ℕ
type_ping = 0x01

abbrev pub type_get_info : ℕ
type_get_info = 0x02

abbrev pub type_set_config : ℕ
type_set_config = 0x03

abbrev pub type_tx : ℕ
type_tx = 0x04

abbrev pub type_rx_start : ℕ
type_rx_start = 0x05

abbrev pub type_rx_stop : ℕ
type_rx_stop = 0x06

-- TxFlags.as_byte
unfoldable pub tx_flags_as_byte : Bool → ℤ
tx_flags_as_byte skip_cad = if skip_cad then pos 1 else pos 0

abbrev pub encode_ping_payload : Bytes
encode_ping_payload = []

abbrev pub encode_get_info_payload : Bytes
encode_get_info_payload = []

unfoldable pub encode_set_config_payload : Modulation → Result Bytes
encode_set_config_payload modulation = encode_modulation modulation

unfoldable pub encode_tx_payload : Bytes → Bool → Result Bytes
encode_tx_payload bs skip_cad = do
  guard (not (length bs == 0)) value_error
  flags ← pack_unsigned 1 (tx_flags_as_byte skip_cad)
  ok (flags ++ bs)

abbrev pub encode_rx_start_payload : Bytes
encode_rx_start_payload = []

abbrev pub encode_rx_stop_payload : Bytes
encode_rx_stop_payload = []
