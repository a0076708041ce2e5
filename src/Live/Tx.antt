-- ===== src/Live/Tx.antt =====
-- Transmissions of a Dongle over a live session.
use client_py.Prelude.{◌++◌, map, ℕ, ◌≡◌, refl, ◌∙◌, ap, true, false, Option, some, Bool}
use client_py.Python.Result.{ok}
use client_py.Python.Struct.{Bytes}
use client_py.Python.Float.{Floats}
use client_py.Frame.{Cobs, IsCobs}
use client_py.Errors.{
  DongloraError, is_not_configured, device_error, channel_busy, cancelled, CodeOrInt,
}
use client_py.Events.{OkPayload, TxDone}
use client_py.Events.Rx.{RxEvent}
use client_py.Events.Enums.{TxResult}
use client_py.Commands.{type_tx, type_set_config, encode_tx_payload, encode_set_config_payload}
use client_py.Modulation.{Modulation}
use client_py.Session.Send.{Outcome, returned, following_tag, tx_outcome, outcome}
use client_py.Session.Send
use client_py.Session.Reader.{is_alive}
use client_py.Session.Exchange.{tx_expected}
use client_py.Dongle.{
  Services, Dongle, Ended, tx, with_recovery, recover_from, at_world, continue_with,
  ensure_session_alive,
}
use client_py.Dongle.Recovery.{tx_reapplies}
use client_py.Live.{Device, System, ended_of, services, send_tx, done}
use client_py.Live.Quiet.{Quiet}
use client_py.Session.State.{rx_event}
use client_py.Live.Packets.{all_packets}
use client_py.Live.Answers.{Accepts, Refuses, Transmits}
use client_py.Live.Commands.{send_tx-Transmits, send_tx-Refuses, set_config-Accepts}

pub Quiet-alive : {Float D : Type 0} (w : System Float D) → Quiet w → is_alive w.session ≡ true
unfolding is_alive
Quiet-alive w q = rw (q.is_open, q.reads_on) refl

module _ (cobs : Cobs) (fl : Floats) {D : Type 0} (device : Device D) (laws : IsCobs cobs)
    (auto_configure : Bool) (requested : Option Modulation) where
  abbrev sv : Services (System fl.Float D) (RxEvent fl.Float)
  sv = services cobs fl device auto_configure requested

  -- Every end of a command on a live session but the want of a configuration is that of the method.
  recover_passes :
      {A : Type 0} (n : ℕ) (op : System fl.Float D → Ended A × System fl.Float D) (r : Outcome A)
      (d : Dongle (System fl.Float D))
      → ((e : DongloraError) → r ≡ Send.raised e → is_not_configured e ≡ false)
      → is_alive d.world.session ≡ true
      → recover_from sv n op (ended_of r, d) ≡ some (ended_of r, d)
  unfolding recover_from
  recover_passes n op (returned a) d other alive = refl
  recover_passes n op (Send.raised e) d other alive = rw (other e refl, alive) refl

  tx_expected_other :
      (td : TxDone) (r : TxResult) (e : DongloraError)
      → tx_expected td r ≡ Send.raised e
      → is_not_configured e ≡ false
  unfolding is_not_configured
  tx_expected_other td TxResult.transmitted e h = cc
  tx_expected_other td TxResult.channel_busy e h =
      let same : channel_busy ≡ e = cc in rw⁻¹ same refl
  tx_expected_other td TxResult.cancelled e h = let same : cancelled ≡ e = cc in rw⁻¹ same refl

  -- A tx on a live session, from the end of its transmission.
  tx_alive :
      (n : ℕ) (bs : Bytes) (skip_cad : Bool) (d : Dongle (System fl.Float D))
      → d.closed ≡ false
      → Quiet d.world
      → tx sv n bs skip_cad d
        ≡ recover_from sv n
            (send_tx cobs fl device bs skip_cad)
            (at_world sv d (send_tx cobs fl device bs skip_cad d.world))
  unfolding tx with_recovery ensure_session_alive continue_with
  tx_alive n bs skip_cad d is_open q = rw (is_open, Quiet-alive d.world q) refl

  -- A tx of an open Dongle over a quiet session, whose payload is encoded and to which the device
  -- answers with OK and later with TX_DONE, among any frames with other tags, ends as the TX_DONE
  -- says: it returns it, or raises ChannelBusy or Cancelled. Of the Dongle's attributes none
  -- changes, the session is quiet again, and the packets among the frames stand at the end of the RX
  -- queue in their order.
  pub tx-Transmits :
      (n : ℕ) (bs payload : Bytes) (skip_cad : Bool) (d : Dongle (System fl.Float D)) (td : TxDone)
      (d' : D)
      → d.closed ≡ false
      → Quiet d.world
      → encode_tx_payload bs skip_cad ≡ ok payload
      → (t : Transmits cobs device d.world.session.next_tag payload d.world.device td d')
      → (w' : System fl.Float D) × (tx sv n bs skip_cad d
          ≡ some (ended_of (tx_expected td td.result), record d { world = w' }))
        × Quiet w'
        × (w'.session.rx_queue ≡ d.world.session.rx_queue ++ map rx_event (all_packets fl t.given))
        × (w'.device ≡ d')
  tx-Transmits n bs payload skip_cad d td d' is_open q e t =
      let sent =
        send_tx-Transmits cobs fl device laws d.world q _ _ d' refl refl bs payload skip_cad td e
          t in
      (
        sent.world,
        tx_alive n bs skip_cad d is_open q
            ∙ ap (λ r. recover_from sv n (send_tx cobs fl device bs skip_cad) (at_world sv d r))
                sent.runs
            ∙ recover_passes n (send_tx cobs fl device bs skip_cad) (tx_expected td td.result)
                (record d { world = sent.world }) (tx_expected_other td td.result)
                (Quiet-alive sent.world sent.quiet),
        sent.quiet,
        sent.queued,
        sent.at,
      )

  -- A tx of an open Dongle over a quiet session, which the device refuses with the code of a
  -- missing configuration, sends the last configuration again under the next tag and, if the device
  -- accepts that, transmits under the tag behind it; if the device then answers with OK and
  -- TX_DONE, the tx ends as the TX_DONE says, of the Dongle's attributes none changes, and the
  -- session is quiet.
  pub tx_reconfigures :
      (n tag : ℕ) (bs payload config_payload : Bytes) (skip_cad : Bool)
      (d : Dongle (System fl.Float D)) (config : Modulation) (code : CodeOrInt) (stored : OkPayload)
      (td : TxDone) (d1 d2 d3 : D)
      → d.closed ≡ false
      → Quiet d.world
      → d.world.session.next_tag ≡ tag
      → d.applied_config ≡ some config
      → encode_tx_payload bs skip_cad ≡ ok payload
      → encode_set_config_payload config ≡ ok config_payload
      → is_not_configured (device_error code tag) ≡ true
      → Refuses cobs device type_tx tag payload d.world.device code d1
      → Accepts cobs device type_set_config (following_tag tag) config_payload d1 stored d2
      → Transmits cobs device (following_tag (following_tag tag)) payload d2 td d3
      → (w' : System fl.Float D) × (tx sv n bs skip_cad d
          ≡ some (ended_of (tx_expected td td.result), record d { world = w' }))
        × Quiet w'
        × (w'.device ≡ d3)
  tx_reconfigures n tag bs payload config_payload skip_cad d config code stored td d1 d2 d3 is_open
        q at had e ec unset refuses accepts transmits =
      let first =
        send_tx-Refuses cobs fl device laws d.world q tag _ d1 at refl bs payload skip_cad code e
          refuses in
      let second =
        set_config-Accepts cobs fl device laws first.world first.quiet _ d1 d2 first.next first.at
          config config_payload stored ec accepts in
      let third =
        send_tx-Transmits cobs fl device laws second.world second.quiet _ d2 d3 second.next
          second.at bs payload skip_cad td e transmits in
      (
        third.world,
        tx_reapplies sv n d bs skip_cad (device_error code tag) first.world is_open
              (Quiet-alive d.world q) first.runs config second.world unset had (ap done second.runs)
            ∙ ap (λ r. some (at_world sv d r)) third.runs,
        third.quiet,
        third.at,
      )
