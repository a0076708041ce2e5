-- ===== src/Live/Recovery.antt =====
-- A Dongle whose transport drops: the reopener connects again, and the method is repeated.
use client_py.Prelude.{Bool, ℕ, zero, suc, ◌<◌, ◌≡◌, refl, ◌∙◌, ap, true, false, Option, some, []}
use client_py.Prelude.Int.{pos}
use client_py.Python.Result.{Error, ok, is_os_error}
use client_py.Python.Struct.{Bytes}
use client_py.Python.Float.{Floats}
use client_py.Frame.{Cobs, IsCobs}
use client_py.Errors.{donglora_error, is_not_configured}
use client_py.Events.{info, config_result, SetConfigResult, TxDone}
use client_py.Info.{Info}
use client_py.Commands.{
  type_get_info, type_set_config, type_tx, encode_set_config_payload, encode_tx_payload,
}
use client_py.Modulation.{Modulation}
use client_py.Session.Reader.{is_alive}
use client_py.Session.Exchange.{tx_expected}
use client_py.Dongle.{Dongle, finished, crashed, at_world, tx}
use client_py.Dongle.Recovery.{Failures, no_more, one_more, tx_reconnects}
use client_py.Connect.{prepared, prepare_config}
use client_py.Connect.Open.{requested, open_and_init}
use client_py.Live.{Device, System, ended_of, services, close_session, attempt_of}
use client_py.Live.Quiet.{Quiet}
use client_py.Live.Answers.{Accepts, Transmits}
use client_py.Live.Commands.{send_tx-Transmits}
use client_py.Live.Opening.{open_and_init-Accepts}
use client_py.Live.Tx.{Quiet-alive}
use client_py.Live.Drop.{Drops, send_tx-Drops}

module _ {D : Type 0} (device : Device D) where
  -- From the device `d` on, the transport cannot be opened `n` times, each with an OSError and a
  -- wait for the backoff that nothing interrupts, and the device behind these is the last argument.
  pub data Unplugged : ℕ → D → D → Type 0 where
    back : {d : D} → Unplugged zero d d
    still :
        {n : ℕ} {e : Error} {d d1 d2 d3 : D}
        → device.open_transport d ≡ (crashed e, d1)
        → is_os_error e ≡ true
        → device.pause d1 ≡ (false, d2)
        → Unplugged n d2 d3
        → Unplugged (suc n) d d3

module _ (cobs : Cobs) (fl : Floats) {D : Type 0} (device : Device D) (auto_configure : Bool)
    (config : Option Modulation) where
  pub Unplugged-Failures :
      (n : ℕ) (w : System fl.Float D) (d d' : D)
      → w.device ≡ d
      → Unplugged device n d d'
      → Failures (services cobs fl device auto_configure config) n w (record w { device = d' })
  unfolding open_and_init
  Unplugged-Failures zero w d d' at back = rw⁻¹ at no_more
  Unplugged-Failures (suc n) w d d' at (still {d1 = d1} {d2 = d2} opens os waits later) =
      one_more {w1 = record w { device = d1 }} (rw (at, opens, os) refl) (rw waits refl)
        (Unplugged-Failures n (record w { device = d2 }) d2 d' refl later)

module _ (cobs : Cobs) (fl : Floats) {D : Type 0} (device : Device D) (laws : IsCobs cobs) where
  -- With fuel for more than `n` attempts: the transport of an open Dongle drops within a frame
  -- while a tx waits, it cannot be opened `n` times, and then the device is back, tells its info,
  -- accepts the configuration and transmits. The tx ends as the TX_DONE says, and the Dongle has
  -- the new info, the configuration that the device echoed, and a quiet session. The Dongle has a
  -- reopener and was not receiving, and its session was quiet.
  pub tx_survives :
      (n fuel : ℕ) (bs payload config_payload : Bytes) (skip_cad : Bool)
      (d : Dongle (System fl.Float D)) (config : Option Modulation) (i : Info) (m : Modulation)
      (r : SetConfigResult) (td : TxDone) (d1 d2 d3 d4 d5 d6 : D)
      → n < fuel
      → d.closed ≡ false
      → d.has_reopener ≡ true
      → d.rx_started ≡ false
      → Quiet d.world
      → encode_tx_payload bs skip_cad ≡ ok payload
      → Drops cobs device
          (record { type_id = type_tx; tag = d.world.session.next_tag; payload = payload })
          d.world.device
          d1
      → Unplugged device n (device.hang_up d1) d2
      → device.open_transport d2 ≡ (finished tt, d3)
      → Accepts cobs device type_get_info 1 [] d3 (info i) d4
      → i.proto_major ≡ pos 1
      → prepare_config i (requested config) ≡ prepared m
      → encode_set_config_payload m ≡ ok config_payload
      → Accepts cobs device type_set_config 2 config_payload d4 (config_result r) d5
      → Transmits cobs device 3 payload d5 td d6
      → (w' : System fl.Float D) × (tx (services cobs fl device true config) fuel bs skip_cad d
          ≡ some (
            ended_of (tx_expected td td.result),
            record d { info = i; applied_config = some r.current; world = w' },
          ))
        × Quiet w'
        × (w'.device ≡ d6)
  unfolding close_session is_not_configured is_alive
  tx_survives n fuel bs payload config_payload skip_cad d config i m r td d1 d2 d3 d4 d5 d6 enough
        is_open can_reopen quiet q e drops unplugged opens tells v1 prep ec accepts transmits =
      let (w1, fails, dead, at1) =
        send_tx-Drops cobs fl device d.world bs payload skip_cad d1 q e drops in
      let w2 : System fl.Float D = record (close_session cobs fl device w1) { device = d2 } in
      let failures =
        Unplugged-Failures cobs fl device true config n (close_session cobs fl device w1)
          (device.hang_up d1) d2 (ap device.hang_up at1) unplugged in
      let (w3, up, q3, tag3, at3) =
        open_and_init-Accepts cobs fl device laws config w2 i m config_payload r d3 d4 d5 opens
          tells v1 prep ec accepts in
      let sent =
        send_tx-Transmits cobs fl device laws w3 q3 3 d5 d6 tag3 at3 bs payload skip_cad td e
          transmits in
      (
        sent.world,
        tx_reconnects (services cobs fl device true config) n fuel d bs skip_cad donglora_error w1
              w2 w3 i (some r.current) enough is_open can_reopen quiet (Quiet-alive d.world q) fails
              refl (rw dead refl) failures (ap (attempt_of cobs fl device w2) up)
            ∙ ap
                (λ v. some (
                  at_world (services cobs fl device true config)
                    (record d { info = i; applied_config = some r.current }) v))
                sent.runs,
        sent.quiet,
        sent.at,
      )
