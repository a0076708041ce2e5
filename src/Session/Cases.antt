-- ===== src/Session/Cases.antt =====
-- The branches of Session._dispatch: a packet, an asynchronous error, nothing, or a response.
use client_py.Prelude.{List, [], ◌∷◌, ◌==◌, if◌then◌else◌, Bool-cases, inl, inr}
use client_py.Python.Result.{Result, ok, err}
use client_py.Python.Float.{Floats}
use client_py.Python.Dict.{lookup}
use client_py.Frame.{Frame}
use client_py.Events.{type_rx, type_err, decode_err_payload}
use client_py.Events.Rx
use client_py.Events.Rx.{RxEvent}
use client_py.Session.State.{Session}
use client_py.Session.Reader.{dispatch, on_rx, on_async_err, correlate}

abbrev pub one_packet : {Float : Type 0} → Result (RxEvent Float) → List (RxEvent Float)
one_packet (ok rx) = rx ∷ []
one_packet (err e) = []

-- The packet that a frame carries, if it carries one.
abbrev pub packets_of : (fl : Floats) → Frame → List (RxEvent fl.Float)
packets_of fl frame =
    if frame.tag == 0
    then if frame.type_id == type_rx then one_packet (Rx.decode fl frame.payload) else []
    else []

-- What holds in each branch holds of the dispatch; `P` speaks of the packets, too.
pub dispatch_cases {ℓ} :
    (fl : Floats) (frame : Frame) (s : Session fl.Float)
    (P : List (RxEvent fl.Float) → Session fl.Float → Type ℓ)
    → P (one_packet (Rx.decode fl frame.payload)) (on_rx s (Rx.decode fl frame.payload)).1
    → P [] (on_async_err s (decode_err_payload frame.payload)).1
    → P [] s
    → P [] (correlate s (lookup frame.tag s.pending) frame).1
    → P (packets_of fl frame) (dispatch fl frame s).1
unfolding dispatch
dispatch_cases fl frame s P packet async_error nothing response =
    elim (Bool-cases (frame.tag == 0)) [
      | inr tagged ↦ rw (tagged, dispatch) response
      | inl async ↦ elim (Bool-cases (frame.type_id == type_rx)) [
        | inl rx ↦ rw (async, rx, dispatch) packet
        | inr not_rx ↦ elim (Bool-cases (frame.type_id == type_err)) [
          | inl e ↦ rw (async, not_rx, e, dispatch) async_error
          | inr other ↦ rw (async, not_rx, other, dispatch) nothing
        ]
      ]
    ]
