-- ===== src/Session/Threads/Queues.antt =====
-- What the operations of a session do to its queue of packets.
use client_py.Prelude.{
  ℕ, ◌≡◌, refl, sym, ◌∙◌, Option, none, some, List, [], ◌++◌, map, append-nil, Bool-cases, inl, inr,
}
use client_py.Python.Result.{is_value_error, Result, ok, err}
use client_py.Python.Struct.{Bytes}
use client_py.Python.Float.{Floats}
use client_py.Python.Dict.{lookup}
use client_py.Frame.{Cobs, Frame}
use client_py.Errors.{CodeOrInt}
use client_py.Events.{decode_err_payload}
use client_py.Events.Rx
use client_py.Events.Rx.{RxEvent}
use client_py.Session.State.{Session, Pending, rx_event}
use client_py.Session.Send.{alloc_tag, register_pending, after_write, begin, forget_pending}
use client_py.Session.Reader.{dispatch, on_rx, on_async_err, correlate, respond_to}
use client_py.Session.Cases.{packets_of, one_packet, dispatch_cases}

module _ {Float : Type 0} where
  -- `t` has the queue of `s`.
  pub record SameQueue (s t : Session Float) : Type 0 where
    pub queue : t.rx_queue ≡ s.rx_queue
    pub dead : t.reader_dead ≡ s.reader_dead

  after_write-SameQueue :
      (tag ref : ℕ) (wire : Result Bytes) (write : Result (Unit {0})) (s : Session Float)
      → SameQueue s (after_write tag ref wire write s).1
  unfolding after_write forget_pending
  after_write-SameQueue tag ref (err e) write s = record { queue = refl; dead = refl }
  after_write-SameQueue tag ref (ok wire) (err e) s = record { queue = refl; dead = refl }
  after_write-SameQueue tag ref (ok wire) (ok r) s = record { queue = refl; dead = refl }

  pub begin-SameQueue :
      (cobs : Cobs) (cmd_type : ℕ) (payload : Result Bytes) (write : Result (Unit {0}))
      (s : Session Float)
      → SameQueue s (begin cobs cmd_type payload write s).1
  unfolding begin alloc_tag register_pending
  begin-SameQueue cobs cmd_type payload write s =
      let q = after_write-SameQueue _ _ _ write _ in record { queue = q.queue; dead = q.dead }

  -- A frame puts its packet at the end.
  pub record Puts (s t : Session Float) (es : List (RxEvent Float)) : Type 0 where
    pub queue : t.rx_queue ≡ s.rx_queue ++ map rx_event es
    pub dead : t.reader_dead ≡ s.reader_dead

  Puts-nothing : (s t : Session Float) → SameQueue s t → Puts s t []
  Puts-nothing s t h = record { queue = h.queue ∙ sym (append-nil s.rx_queue); dead = h.dead }

  respond_to-SameQueue :
      (s : Session Float) (ref : ℕ) (o : Option Pending) (frame : Frame)
      → SameQueue s (respond_to s ref o frame).1
  respond_to-SameQueue s ref none frame = record { queue = refl; dead = refl }
  respond_to-SameQueue s ref (some p) frame = record { queue = refl; dead = refl }

  correlate-SameQueue :
      (s : Session Float) (o : Option ℕ) (frame : Frame) → SameQueue s (correlate s o frame).1
  correlate-SameQueue s none frame = record { queue = refl; dead = refl }
  correlate-SameQueue s (some ref) frame = respond_to-SameQueue s ref _ frame

  on_async_err-SameQueue :
      (s : Session Float) (r : Result CodeOrInt) → SameQueue s (on_async_err s r).1
  unfolding on_async_err
  on_async_err-SameQueue s (ok code) = record { queue = refl; dead = refl }
  on_async_err-SameQueue s (err e) = record { queue = refl; dead = refl }

  on_rx-Puts :
      (s : Session Float) (r : Result (RxEvent Float)) → Puts s (on_rx s r).1 (one_packet r)
  unfolding on_rx
  on_rx-Puts s (ok rx) = record { queue = refl; dead = refl }
  on_rx-Puts s (err e) = elim (Bool-cases (is_value_error e)) [
    | inl v ↦ rw v (record { queue = sym (append-nil s.rx_queue); dead = refl })
    | inr o ↦ rw o (record { queue = sym (append-nil s.rx_queue); dead = refl })
  ]

pub dispatch-Puts :
    (fl : Floats) (frame : Frame) (s : Session fl.Float)
    → Puts s (dispatch fl frame s).1 (packets_of fl frame)
dispatch-Puts fl frame s =
    dispatch_cases fl frame s (λ es t. Puts s t es) (on_rx-Puts s (Rx.decode fl frame.payload))
      (Puts-nothing s _ (on_async_err-SameQueue s (decode_err_payload frame.payload)))
      (Puts-nothing s s (record { queue = refl; dead = refl }))
      (Puts-nothing s _ (correlate-SameQueue s (lookup frame.tag s.pending) frame))
