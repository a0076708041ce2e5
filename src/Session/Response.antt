-- ===== src/Session/Response.antt =====
-- The part of Session._dispatch that handles a frame for a pending command: OK, ERR or TX_DONE.
use client_py.Prelude.{ℕ, true, some, ◌==◌, if◌then◌else◌}
use client_py.Python.Result.{Result, ok, err, is_value_error}
use client_py.Frame.{Frame}
use client_py.Errors.{
  DongloraError, donglora_error, channel_busy, cancelled, CodeOrInt, device_error,
}
use client_py.Events.{
  type_ok, type_err, type_tx_done, OkPayload, TxDone, parse_ok_payload, decode_err_payload,
  decode_tx_done,
}
use client_py.Events.Enums.{TxResult}
use client_py.Commands.{type_tx}
use client_py.Session.State.{Pending}

-- `pending.err = e; pending.event.set()`
abbrev pub fail : Pending → DongloraError → Pending
fail p e = record p { err = some e; event = true }

-- What a handler leaves: an exception that escapes it, and the pending command.
abbrev pub Handled : Type 0
Handled = Result (Unit {0}) × Pending

-- `except ValueError: pending.err = DongloraError(...)`; another exception escapes.
unfoldable pub bad_payload : Pending → Result (Unit {0}) → Handled
bad_payload p (ok tt) = (ok tt, p)
bad_payload p (err e) = if is_value_error e then (ok tt, fail p donglora_error) else (err e, p)

unfoldable pub on_ok : Pending → Result OkPayload → Handled
unfolding bad_payload
on_ok p (err e) = bad_payload p (err e)
on_ok p (ok payload) =
    if p.cmd_type == type_tx
    then (ok tt, record p { ok_payload = some payload })
    else (ok tt, record p { ok_payload = some payload; event = true })

unfoldable pub on_err : Pending → ℕ → Result CodeOrInt → Handled
on_err p tag (err e) = (err e, p)
on_err p tag (ok code) = (ok tt, fail p (device_error code tag))

unfoldable pub tx_result : Pending → TxDone → TxResult → Pending
tx_result p td TxResult.channel_busy = fail p channel_busy
tx_result p td TxResult.cancelled = fail p cancelled
tx_result p td TxResult.transmitted = record p { tx_done = some td; event = true }

unfoldable pub on_tx_done : Pending → Result TxDone → Handled
unfolding bad_payload tx_result
on_tx_done p (err e) = bad_payload p (err e)
on_tx_done p (ok td) = (ok tt, tx_result p td td.result)

unfoldable pub handle_response : Pending → Frame → Handled
unfolding on_ok on_err on_tx_done
handle_response p frame =
    if frame.type_id == type_ok
    then on_ok p (parse_ok_payload p.cmd_type frame.payload)
    else if frame.type_id == type_err
    then on_err p frame.tag (decode_err_payload frame.payload)
    else if frame.type_id == type_tx_done
    then on_tx_done p (decode_tx_done frame.payload)
    else (ok tt, p)
