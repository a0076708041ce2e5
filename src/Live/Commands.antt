-- ===== src/Live/Commands.antt =====
-- The commands of a live session, by what the device answers.
use client_py.Prelude.{
  ◌++◌, map, ℕ, ◌≡◌, ◌≢◌, refl, ◌∙◌, ap, subst, some, List, [], ◌∷◌, arith, All, Bool, Bool-cases,
  inl, inr, ◌==◌, ==_iff,
}
use client_py.Python.Result.{ok}
use client_py.Python.Struct.{Bytes}
use client_py.Python.Float.{Floats}
use client_py.Frame.{Cobs, IsCobs, Frame}
use client_py.Errors.{CodeOrInt, device_error}
use client_py.Events.{OkPayload, TxDone}
use client_py.Commands.{type_tx, type_set_config, encode_tx_payload, encode_set_config_payload}
use client_py.Modulation.{Modulation}
use client_py.Session.Send.{outcome, tx_outcome}
use client_py.Session.Send
use client_py.Session.Correlation.{fresh}
use client_py.Session.Exchange.{tx_expected, tx_steps, ok_step, err_step}
use client_py.Dongle.{finished, raised}
use client_py.Live.{Device, System, ended_of, send_tx, set_config, send_and_wait}
use client_py.Live.Quiet.{Quiet}
use client_py.Live.Wait.{own, handle_all}
use client_py.Session.State.{RxItem, rx_event}
use client_py.Live.Packets.{all_packets}
use client_py.Live.Answers.{Replies, Accepts, Refuses, Transmits, Ends}
use client_py.Live.Exchange.{send_and_wait-Replies, send_tx-Replies}

own_tag : (tag : ℕ) (fs : List Frame) → All (λ f. f.tag ≡ tag) (own tag fs)
unfolding own
own_tag tag [] = tt
own_tag tag (f ∷ fs) = elim (Bool-cases (f.tag == tag)) [
  | inl mine ↦ rw mine ((==_iff f.tag tag).0 mine, own_tag tag fs)
  | inr other ↦ rw other (own_tag tag fs)
]

module _ (cobs : Cobs) (fl : Floats) {D : Type 0} (device : Device D) (laws : IsCobs cobs)
    (w : System fl.Float D) (q : Quiet w) (tag : ℕ) (d d' : D) (same_tag : w.session.next_tag ≡ tag)
    (same_device : w.device ≡ d) where
  abbrev Sends : ℕ → Bytes → List Frame → List Frame → Type 0
  Sends cmd_type payload given replies =
      Replies cobs device (record { type_id = cmd_type; tag = tag; payload = payload }) d given
        replies d'

  -- The RX queue with the packets of these frames.
  abbrev with_packets : List Frame → List (RxItem fl.Float)
  with_packets given = w.session.rx_queue ++ map rx_event (all_packets fl given)

  waits :
      (cmd_type : ℕ) (payload : Bytes) (given replies : List Frame)
      → Sends cmd_type payload given replies
      → Ends
          (send_and_wait cobs fl device cmd_type (ok payload) w)
          (ended_of (outcome (handle_all replies (fresh tag cmd_type))))
          tag
          (with_packets given)
          d'
  waits cmd_type payload given replies r = rw⁻¹ same_tag (
      send_and_wait-Replies cobs fl device laws w q cmd_type payload given replies d'
        (rw (same_tag, same_device) r))

  transmits :
      (bs payload : Bytes) (skip_cad : Bool) (given replies : List Frame)
      → encode_tx_payload bs skip_cad ≡ ok payload
      → Sends type_tx payload given replies
      → Ends
          (send_tx cobs fl device bs skip_cad w)
          (ended_of (tx_outcome (handle_all replies (fresh tag type_tx))))
          tag
          (with_packets given)
          d'
  transmits bs payload skip_cad given replies e r = rw⁻¹ same_tag (
      send_tx-Replies cobs fl device laws w q bs payload skip_cad given replies d' e
        (rw (same_tag, same_device) r))

  -- A command other than TX that the device accepts returns what its OK carries.
  pub send_and_wait-Accepts :
      (cmd_type : ℕ) (payload : Bytes) (result : OkPayload)
      → cmd_type ≢ type_tx
      → (a : Accepts cobs device cmd_type tag payload d result d')
      → Ends
          (send_and_wait cobs fl device cmd_type (ok payload) w)
          (finished (some result))
          tag
          (with_packets a.given)
          d'
  send_and_wait-Accepts cmd_type payload result ne a =
      subst
        (λ o.
          Ends (send_and_wait cobs fl device cmd_type (ok payload) w) (ended_of o) tag
            (with_packets a.given) d')
        (ok_step tag cmd_type a.reply result ne a.is_ok a.parses)
        (waits cmd_type payload _ _ a.replies)

  pub set_config-Accepts :
      (config : Modulation) (payload : Bytes) (result : OkPayload)
      → encode_set_config_payload config ≡ ok payload
      → (a : Accepts cobs device type_set_config tag payload d result d')
      → Ends
          (set_config cobs fl device config w)
          (finished (some result))
          tag
          (with_packets a.given)
          d'
  unfolding set_config
  set_config-Accepts config payload result e a =
      rw e (send_and_wait-Accepts type_set_config payload result (omega arith) a)

  pub send_tx-Transmits :
      (bs payload : Bytes) (skip_cad : Bool) (td : TxDone)
      → encode_tx_payload bs skip_cad ≡ ok payload
      → (t : Transmits cobs device tag payload d td d')
      → Ends
          (send_tx cobs fl device bs skip_cad w)
          (ended_of (tx_expected td td.result))
          tag
          (with_packets t.given)
          d'
  send_tx-Transmits bs payload skip_cad td e t =
      subst
        (λ o.
          Ends (send_tx cobs fl device bs skip_cad w) (ended_of o) tag (with_packets t.given) d')
        (tx_steps tag type_tx t.accepted t.last t.result td refl t.is_ok t.parses t.is_tx_done
          t.decodes)
        (transmits bs payload skip_cad _ _ e t.replies)

  pub send_tx-Refuses :
      (bs payload : Bytes) (skip_cad : Bool) (code : CodeOrInt)
      → encode_tx_payload bs skip_cad ≡ ok payload
      → (r : Refuses cobs device type_tx tag payload d code d')
      → Ends
          (send_tx cobs fl device bs skip_cad w)
          (raised (device_error code tag))
          tag
          (with_packets r.given)
          d'
  send_tx-Refuses bs payload skip_cad code e r =
      let all_own : All (λ f. f.tag ≡ tag) (r.reply ∷ []) =
        subst (All (λ f. f.tag ≡ tag)) r.replies.mine (own_tag tag r.given) in
      subst
        (λ o.
          Ends (send_tx cobs fl device bs skip_cad w) (ended_of o) tag (with_packets r.given) d')
        ((err_step (fresh tag type_tx) r.reply code r.is_err r.decodes).1
          ∙ ap (λ n. Send.raised (device_error code n)) all_own.0)
        (transmits bs payload skip_cad _ _ e r.replies)
