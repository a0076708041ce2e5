-- ===== src/Session/Exchange.antt =====
-- Whole exchanges of donglora/session.py: a command is begun, its response is dispatched, and the
-- thread that waits returns or raises.
use client_py.Prelude.{ℕ, ◌≡◌, ◌≢◌, refl, sym, ap, ◌∙◌, none, some, ==_refl, ==_ne}
use client_py.Python.Result.{Error, Result, ok, err}
use client_py.Python.Struct.{Bytes}
use client_py.Python.Float.{Floats}
use client_py.Frame.{Cobs, Frame}
use client_py.Errors.{timeout_error, channel_busy, cancelled, CodeOrInt, device_error}
use client_py.Events.{
  type_ok, type_err, type_tx_done, OkPayload, TxDone, parse_ok_payload, decode_err_payload,
  decode_tx_done,
}
use client_py.Events.Enums.{TxResult}
use client_py.Commands.{type_tx}
use client_py.Python.Dict.{lookup-pop}
use client_py.Session.State.{Session, Pending}
use client_py.Session.Response.{handle_response, on_ok, on_err, on_tx_done, tx_result}
use client_py.Session.Send.{
  begin, forget_pending, finish, finish_tx, outcome, tx_outcome, Outcome, returned, raised,
}
use client_py.Session.Reader.{dispatch}
use client_py.Session.Correlation.{
  Awaits, fresh, begin-Awaits, finish-Awaits, finish_tx-Awaits, dispatch-Awaits,
}

handle_ok :
    (p : Pending) (frame : Frame) (result : OkPayload)
    → frame.type_id ≡ type_ok
    → parse_ok_payload p.cmd_type frame.payload ≡ ok result
    → handle_response p frame ≡ on_ok p (ok result)
unfolding handle_response
handle_ok p frame result t h = rw (t, h, handle_response) refl

handle_err :
    (p : Pending) (frame : Frame) (r : Result CodeOrInt)
    → frame.type_id ≡ type_err
    → decode_err_payload frame.payload ≡ r
    → handle_response p frame ≡ on_err p frame.tag r
unfolding handle_response
handle_err p frame r t h = rw (t, h, handle_response) refl

handle_tx_done :
    (p : Pending) (frame : Frame) (td : TxDone)
    → frame.type_id ≡ type_tx_done
    → decode_tx_done frame.payload ≡ ok td
    → handle_response p frame ≡ on_tx_done p (ok td)
unfolding handle_response
handle_tx_done p frame td t h = rw (t, h, handle_response) refl

-- What a thread that waits for TX_DONE does for each result in it.
abbrev pub tx_expected : TxDone → TxResult → Outcome TxDone
tx_expected td TxResult.transmitted = returned td
tx_expected td TxResult.channel_busy = raised channel_busy
tx_expected td TxResult.cancelled = raised cancelled

tx_result_outcome :
    (p : Pending) (td : TxDone) (r : TxResult)
    → p.err ≡ none
    → tx_outcome (tx_result p td r) ≡ tx_expected td r
unfolding tx_result tx_outcome
tx_result_outcome p td TxResult.transmitted h = rw h refl
tx_result_outcome p td TxResult.channel_busy h = refl
tx_result_outcome p td TxResult.cancelled h = refl

-- A command other than TX behind its OK frame.
pub ok_step :
    (tag cmd_type : ℕ) (frame : Frame) (result : OkPayload)
    → cmd_type ≢ type_tx
    → frame.type_id ≡ type_ok
    → parse_ok_payload cmd_type frame.payload ≡ ok result
    → outcome (handle_response (fresh tag cmd_type) frame).1 ≡ returned (some result)
unfolding on_ok outcome
ok_step tag cmd_type frame result ne t h =
    rw (handle_ok (fresh tag cmd_type) frame result t h, ==_ne cmd_type type_tx ne, on_ok) refl

-- Any command behind its ERR frame.
pub err_step :
    (p : Pending) (frame : Frame) (code : CodeOrInt)
    → frame.type_id ≡ type_err
    → decode_err_payload frame.payload ≡ ok code
    → (outcome (handle_response p frame).1 ≡ raised (device_error code frame.tag))
      × (tx_outcome (handle_response p frame).1 ≡ raised (device_error code frame.tag))
unfolding on_err outcome tx_outcome
err_step p frame code t h =
    (rw (handle_err p frame (ok code) t h) refl, rw (handle_err p frame (ok code) t h) refl)

-- A TX behind its OK frame and its TX_DONE.
pub tx_steps :
    (tag cmd_type : ℕ) (accepted done : Frame) (result : OkPayload) (td : TxDone)
    → cmd_type ≡ type_tx
    → accepted.type_id ≡ type_ok
    → parse_ok_payload cmd_type accepted.payload ≡ ok result
    → done.type_id ≡ type_tx_done
    → decode_tx_done done.payload ≡ ok td
    → tx_outcome (handle_response (handle_response (fresh tag cmd_type) accepted).1 done).1
      ≡ tx_expected td td.result
unfolding on_ok on_tx_done
tx_steps tag cmd_type accepted done result td is_tx t h t' h' =
    let p = record (fresh tag cmd_type) { ok_payload = some result } in
    let queued : (handle_response (fresh tag cmd_type) accepted).1 ≡ p =
      rw (handle_ok (fresh tag cmd_type) accepted result t h, is_tx, on_ok) refl in
    rw (queued, handle_tx_done p done td t' h') (tx_result_outcome p td td.result refl)

module _ (fl : Floats) (cobs : Cobs) (cmd_type tag ref : ℕ) (payload : Result Bytes)
    (write : Result (Unit {0})) (s s1 : Session fl.Float)
    (sent : begin cobs cmd_type payload write s ≡ (ok (tag, ref), s1))
    (tagged : s.next_tag ≢ 0) where
  tag_ne : tag ≢ 0
  tag_ne e = tagged (sym (begin-Awaits cobs cmd_type tag ref payload write s s1 sent).1 ∙ e)

  answered :
      (frame : Frame)
      → frame.tag ≡ tag
      → Awaits (dispatch fl frame s1).1 tag ref (handle_response (fresh tag cmd_type) frame).1
  answered frame e =
      dispatch-Awaits fl s1 frame tag ref (fresh tag cmd_type)
        (begin-Awaits cobs cmd_type tag ref payload write s s1 sent).0 e tag_ne

  reply :
      (frame : Frame)
      → frame.tag ≡ tag
      → (finish tag ref (dispatch fl frame s1).1).0
        ≡ outcome (handle_response (fresh tag cmd_type) frame).1
  reply frame e = finish-Awaits _ tag ref _ (answered frame e)

  tx_reply :
      (frame : Frame)
      → frame.tag ≡ tag
      → (finish_tx tag ref (dispatch fl frame s1).1).0
        ≡ tx_outcome (handle_response (fresh tag cmd_type) frame).1
  tx_reply frame e = finish_tx-Awaits _ tag ref _ (answered frame e)

  -- A command other than TX that was sent under a tag other than 0 returns the parsed payload of an OK
  -- frame with its tag, if that payload parses.
  pub exchange_ok :
      (frame : Frame) (result : OkPayload)
      → cmd_type ≢ type_tx
      → frame.tag ≡ tag
      → frame.type_id ≡ type_ok
      → parse_ok_payload cmd_type frame.payload ≡ ok result
      → (finish tag ref (dispatch fl frame s1).1).0 ≡ returned (some result)
  exchange_ok frame result ne e t h = reply frame e ∙ ok_step tag cmd_type frame result ne t h

  -- A command that was sent under a tag other than 0 raises the device error of the code in an ERR
  -- frame with its tag that can be decoded, and the error carries that tag.
  pub exchange_err :
      (frame : Frame) (code : CodeOrInt)
      → frame.tag ≡ tag
      → frame.type_id ≡ type_err
      → decode_err_payload frame.payload ≡ ok code
      → (finish tag ref (dispatch fl frame s1).1).0 ≡ raised (device_error code tag)
  exchange_err frame code e t h =
      reply frame e
      ∙ (err_step (fresh tag cmd_type) frame code t h).0
      ∙ ap (λ n. raised (device_error code n)) e

  -- An ERR frame whose payload cannot be decoded does not wake its command: after that frame the
  -- command, sent under a tag other than 0, still waits until its timeout, in _send_and_wait and in
  -- _send_tx.
  pub exchange_bad_err :
      (frame : Frame) (exc : Error)
      → frame.tag ≡ tag
      → frame.type_id ≡ type_err
      → decode_err_payload frame.payload ≡ err exc
      → ((finish tag ref (dispatch fl frame s1).1).0 ≡ raised timeout_error)
        × ((finish_tx tag ref (dispatch fl frame s1).1).0 ≡ raised timeout_error)
  unfolding on_err outcome tx_outcome
  exchange_bad_err frame exc e t h =
      let unchanged = handle_err (fresh tag cmd_type) frame (err exc) t h in
      (reply frame e ∙ rw unchanged refl, tx_reply frame e ∙ rw unchanged refl)

  -- Dispatching a second frame of the command.
  answered_twice :
      (first second : Frame)
      → first.tag ≡ tag
      → second.tag ≡ tag
      → Awaits
          (dispatch fl second (dispatch fl first s1).1).1
          tag
          ref
          (handle_response (handle_response (fresh tag cmd_type) first).1 second).1
  answered_twice first second e e' =
      dispatch-Awaits fl (dispatch fl first s1).1 second tag ref _ (answered first e) e' tag_ne

  -- The OK frame of a TX does not end it: a TX that was sent under a tag other than 0 and gets only its
  -- OK frame, with a payload that parses, times out.
  pub exchange_tx_ok :
      (frame : Frame) (result : OkPayload)
      → cmd_type ≡ type_tx
      → frame.tag ≡ tag
      → frame.type_id ≡ type_ok
      → parse_ok_payload cmd_type frame.payload ≡ ok result
      → (finish_tx tag ref (dispatch fl frame s1).1).0 ≡ raised timeout_error
  unfolding on_ok tx_outcome
  exchange_tx_ok frame result is_tx e t h =
      tx_reply frame e ∙ rw (handle_ok (fresh tag cmd_type) frame result t h, is_tx, on_ok) refl

  -- A TX that was sent under a tag other than 0 and gets its OK frame, then its TX_DONE, both with
  -- payloads that can be decoded, returns the TX_DONE if that reports a transmission, and raises ChannelBusy or Cancelled if it reports these.
  pub exchange_tx :
      (accepted done : Frame) (result : OkPayload) (td : TxDone)
      → cmd_type ≡ type_tx
      → accepted.tag ≡ tag
      → accepted.type_id ≡ type_ok
      → parse_ok_payload cmd_type accepted.payload ≡ ok result
      → done.tag ≡ tag
      → done.type_id ≡ type_tx_done
      → decode_tx_done done.payload ≡ ok td
      → (finish_tx tag ref (dispatch fl done (dispatch fl accepted s1).1).1).0
        ≡ tx_expected td td.result
  exchange_tx accepted done result td is_tx e t h e' t' h' =
      finish_tx-Awaits _ tag ref _ (answered_twice accepted done e e')
      ∙ tx_steps tag cmd_type accepted done result td is_tx t h t' h'

-- A frame with a tag other than 0 whose command has returned, raised or timed out changes nothing.
pub late_response_ignored :
    (fl : Floats) (s : Session fl.Float) (tag ref : ℕ) (frame : Frame)
    → frame.tag ≡ tag
    → tag ≢ 0
    → dispatch fl frame (finish tag ref s).1 ≡ (ok tt, (finish tag ref s).1)
unfolding dispatch finish forget_pending
late_response_ignored fl s tag ref frame e ne =
    rw (e, ==_ne tag 0 ne, lookup-pop tag tag s.pending, ==_refl tag) refl
