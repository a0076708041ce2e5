-- ===== src/Session/Reader.antt =====
-- The reader thread of donglora/session.py, the queues that it fills, and close.
use client_py.Prelude.{
  ℕ, Bool, true, not, ◌&&◌, Option, none, some, List, [], ◌∷◌, ◌++◌, ◌==◌, if◌then◌else◌, get_elem?,
  set,
}
use client_py.Python.Result.{Result, ok, err, is_value_error, is_frame_error}
use client_py.Python.Float.{Floats}
use client_py.Python.Dict
use client_py.Frame.{Cobs, Frame, Read, read_frame}
use client_py.Errors.{DongloraError, donglora_error, frame_error, CodeOrInt, device_error}
use client_py.Events.{type_rx, type_err, TxDone, decode_err_payload}
use client_py.Events.Rx
use client_py.Events.Rx.{RxEvent}
use client_py.Session.State.{Session, Pending, RxItem, rx_event, dead_sentinel, update_all}
use client_py.Session.Response.{Handled, fail, handle_response}

module _ {Float : Type 0} where
  -- `self._async_errors.put(e)`
  abbrev pub put_error : Session Float → DongloraError → Session Float
  put_error s e = record s { async_errors = s.async_errors ++ e ∷ [] }

  unfoldable pub on_rx : Session Float → Result (RxEvent Float) → Result (Unit {0}) × Session Float
  on_rx s (ok rx) = (ok tt, record s { rx_queue = s.rx_queue ++ rx_event rx ∷ [] })
  on_rx s (err e) = if is_value_error e then (ok tt, put_error s frame_error) else (err e, s)

  unfoldable pub on_async_err : Session Float → Result CodeOrInt → Result (Unit {0}) × Session Float
  on_async_err s (ok code) = (ok tt, put_error s (device_error code 0))
  on_async_err s (err e) = (err e, s)

  abbrev pub store_handled : Session Float → ℕ → Handled → Result (Unit {0}) × Session Float
  store_handled s ref (r, p) = (r, record s { objects = set s.objects ref p })

  abbrev pub respond_to :
      Session Float → ℕ → Option Pending → Frame → Result (Unit {0}) × Session Float
  respond_to s ref none frame = (ok tt, s)
  respond_to s ref (some p) frame = store_handled s ref (handle_response p frame)

  abbrev pub correlate : Session Float → Option ℕ → Frame → Result (Unit {0}) × Session Float
  correlate s none frame = (ok tt, s)
  correlate s (some ref) frame = respond_to s ref (get_elem? s.objects ref) frame

-- _dispatch: an exception that escapes it, and the state.
unfoldable pub dispatch :
    (fl : Floats) → Frame → Session fl.Float → Result (Unit {0}) × Session fl.Float
unfolding on_rx on_async_err
dispatch fl frame s =
    if frame.tag == 0
    then if frame.type_id == type_rx
      then on_rx s (Rx.decode fl frame.payload)
      else if frame.type_id == type_err
      then on_async_err s (decode_err_payload frame.payload)
      else (ok tt, s)
    else correlate s (Dict.lookup frame.tag s.pending) frame

-- What one round of `while not self._closed.is_set()` did: went on, or left the loop.
pub data Round (Float : Type 0) : Type 0 where
  continued exited : List Read → Session Float → Round Float
  waiting : Round Float

module _ (cobs : Cobs) (fl : Floats) where
  abbrev pub round_on :
      Session fl.Float → Option (Result (Option Frame) × List Read) → Round fl.Float
  round_on s none = waiting
  round_on s (some (ok none, reads)) = continued reads s
  round_on s (some (ok (some frame), reads)) = continued reads (dispatch fl frame s).1
  round_on s (some (err e, reads)) =
      if is_frame_error e then continued reads (put_error s frame_error) else exited reads s

  -- One round of _reader_loop over what the transport's reads will give; an exception out of _dispatch
  -- is logged. `waiting`: the round is still inside read_frame.
  unfoldable pub reader_round : List Read → Session fl.Float → Round fl.Float
  reader_round reads s = if s.closed then exited reads s else round_on s (read_frame cobs reads)

-- `if p.err is None and p.tx_done is None: p.err = ...`
abbrev pub mark_closed : Option DongloraError → Option TxDone → Option DongloraError
mark_closed none none = some donglora_error
mark_closed e td = e

unfoldable pub wake_dead : Pending → Pending
wake_dead p = record p { err = mark_closed p.err p.tx_done; event = true }

unfoldable pub wake_closed : Pending → Pending
wake_closed p = fail p donglora_error

abbrev pub pop_item :
    {Float : Type 0} → Session Float → List (RxItem Float) → Option (RxEvent Float) × Session Float
pop_item s [] = (none, s)
pop_item s (dead_sentinel ∷ items) = (none, record s { rx_queue = items ++ dead_sentinel ∷ [] })
pop_item s (rx_event rx ∷ items) = (some rx, record s { rx_queue = items })

module _ {Float : Type 0} where
  -- The `finally` block of _reader_loop.
  unfoldable pub reader_exit : Session Float → Session Float
  reader_exit s = record s {
    objects = update_all s.objects (Dict.values s.pending) wake_dead;
    pending = [];
    reader_dead = true;
    rx_queue = s.rx_queue ++ dead_sentinel ∷ [];
  }

  unfoldable pub close : Session Float → Session Float
  close s = record s {
    closed = true;
    objects = update_all s.objects (Dict.values s.pending) wake_closed;
    pending = [];
  }

  unfoldable pub is_alive : Session Float → Bool
  is_alive s = not s.reader_dead && not s.closed

  -- next_rx; `none` with an empty queue is the timeout.
  unfoldable pub next_rx : Session Float → Option (RxEvent Float) × Session Float
  next_rx s = pop_item s s.rx_queue

  unfoldable pub drain_async_errors : Session Float → List DongloraError × Session Float
  drain_async_errors s = (s.async_errors, record s { async_errors = [] })
