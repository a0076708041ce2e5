-- ===== src/Live/Quickstart.antt =====
-- connect() and then tx(): the first lines of a program, against a device that answers.
use client_py.Prelude.{Bool, ℕ, ◌≡◌, refl, ap, true, false, Option, some, []}
use client_py.Prelude.Int.{pos}
use client_py.Python.Result.{ok}
use client_py.Python.Struct.{Bytes}
use client_py.Python.Float.{Floats}
use client_py.Frame.{Cobs, IsCobs}
use client_py.Events.{info, config_result, SetConfigResult, TxDone}
use client_py.Info.{Info}
use client_py.Commands.{
  type_get_info, type_set_config, encode_set_config_payload, encode_tx_payload,
}
use client_py.Modulation.{Modulation}
use client_py.Session.Exchange.{tx_expected}
use client_py.Dongle.{Dongle, finished, tx}
use client_py.Connect.{prepared, prepare_config}
use client_py.Connect.Open.{requested, connect, dongle_on}
use client_py.Live.{Device, System, ended_of, link, services}
use client_py.Live.Quiet.{Quiet}
use client_py.Live.Answers.{Accepts, Transmits}
use client_py.Live.Opening.{open_and_init-Accepts}
use client_py.Live.Tx.{tx-Transmits}

module _ (cobs : Cobs) (fl : Floats) {D : Type 0} (device : Device D) (laws : IsCobs cobs) where
  -- If the transport can be opened, the device tells its info in version 1 of the protocol, _prepare_config
  -- lets the configuration through, it can be encoded, and the device accepts it and echoes one, then
  -- connect() returns a Dongle with that info and the echoed configuration. If the payload of a tx is encoded and the device
  -- then answers it with OK and TX_DONE, the tx on this Dongle ends as the TX_DONE says, and the session is quiet.
  pub connect_then_tx :
      (config : Option Modulation) (w : System fl.Float D) (i : Info) (m : Modulation)
      (config_payload : Bytes) (r : SetConfigResult) (n : ℕ) (bs payload : Bytes) (skip_cad : Bool)
      (td : TxDone) (d0 d1 d2 d3 : D)
      → device.open_transport w.device ≡ (finished tt, d0)
      → Accepts cobs device type_get_info 1 [] d0 (info i) d1
      → i.proto_major ≡ pos 1
      → prepare_config i (requested config) ≡ prepared m
      → encode_set_config_payload m ≡ ok config_payload
      → Accepts cobs device type_set_config 2 config_payload d1 (config_result r) d2
      → encode_tx_payload bs skip_cad ≡ ok payload
      → Transmits cobs device 3 payload d2 td d3
      → (d : Dongle (System fl.Float D)) × (w' : System fl.Float D) × (connect
            (link cobs fl device)
            true
            config
            w
          ≡ (finished d, d.world))
        × (d.info ≡ i)
        × (d.applied_config ≡ some r.current)
        × (tx (services cobs fl device true config) n bs skip_cad d
            ≡ some (ended_of (tx_expected td td.result), record d { world = w' }))
        × Quiet w'
        × (w'.device ≡ d3)
  unfolding connect
  connect_then_tx config w i m config_payload r n bs payload skip_cad td d0 d1 d2 d3 opens tells v1
        prep ec accepts e transmits =
      let (w1, up, q, tag, at) =
        open_and_init-Accepts cobs fl device laws config w i m config_payload r d0 d1 d2 opens tells
          v1 prep ec accepts in
      let d : Dongle (System fl.Float D) = record {
        info = i;
        applied_config = some r.current;
        rx_started = false;
        closed = false;
        has_reopener = true;
        world = w1;
      } in
      let (w', sent, quiet, queued, at') =
        tx-Transmits cobs fl device laws true config n bs payload skip_cad d td d3 refl q e
          (rw (tag, at) transmits) in
      (d, w', ap (dongle_on (link cobs fl device) true) up, refl, refl, sent, quiet, at')
