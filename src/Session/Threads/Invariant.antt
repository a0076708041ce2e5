-- ===== src/Session/Threads/Invariant.antt =====
-- What holds in every state that the threads of a session can reach.
use client_py.Prelude.{ℕ, ◌≡◌, refl, some, List, get_elem?, arith}
use client_py.Python.Float.{Floats}
use client_py.Python.Dict.{lookup}
use client_py.Frame.{Cobs, Frame}
use client_py.Events.{decode_err_payload}
use client_py.Events.Rx
use client_py.Events.Rx.{RxEvent}
use client_py.Session.State.{Session, Pending, init}
use client_py.Session.Reader.{dispatch, next_rx, drain_async_errors}
use client_py.Session.Cases.{dispatch_cases}
use client_py.Session.Threads.{
  Step, begins, finishes, dispatches, bad_frame, exits, takes, drains, closes, Reach, start, later,
}
use client_py.Session.Threads.Settled.{Follows}
use client_py.Session.Threads.Evolves.{Evolves-refl}
use client_py.Session.Threads.Keeps.{
  Keeps-objects, reader_exit-Keeps, forget_pending-Keeps, IsWf, on_async_err-Keeps, pop_item-Keeps,
  Keeps, Keeps-refl, correlate-Keeps, begin-Keeps, close-Keeps, on_rx-Keeps,
}

dispatch-Keeps :
    (fl : Floats) (frame : Frame) (s : Session fl.Float) → Keeps s (dispatch fl frame s).1
dispatch-Keeps fl frame s =
    dispatch_cases fl frame s (λ es t. Keeps s t) (on_rx-Keeps s (Rx.decode fl frame.payload))
      (on_async_err-Keeps s (decode_err_payload frame.payload)) (Keeps-refl s)
      (correlate-Keeps s (lookup frame.tag s.pending) frame)

module _ (cobs : Cobs) (fl : Floats) where
  Step-Keeps :
      {s t : Session fl.Float} {a g : List (RxEvent fl.Float)} → Step cobs fl s a g t → Keeps s t
  unfolding next_rx drain_async_errors
  Step-Keeps {s} (begins cmd_type payload write) = begin-Keeps cobs cmd_type payload write s
  Step-Keeps {s} (finishes tag) = forget_pending-Keeps tag s
  Step-Keeps {s} (dispatches frame alive) = dispatch-Keeps fl frame s
  Step-Keeps {s} (bad_frame alive) = Keeps-objects s _ refl refl (Evolves-refl s.objects)
  Step-Keeps {s} (exits alive) = reader_exit-Keeps s
  Step-Keeps {s} takes = pop_item-Keeps s s.rx_queue
  Step-Keeps {s} drains = Keeps-objects s _ refl refl (Evolves-refl s.objects)
  Step-Keeps {s} closes = close-Keeps s

  init-IsWf : IsWf (init {Float = fl.Float})
  init-IsWf = record { tagged = omega arith; registered = tt; settled = tt }

  -- In every state that the threads of a session can come to, in any order of their operations, the tag
  -- counter is between 1 and 65535, every registered tag is too and its reference names an object with
  -- that tag, and every object is settled: without its event it has neither an error nor a TX_DONE, and
  -- a TX with its event has one of them.
  pub Reach-IsWf :
      {arrived got : List (RxEvent fl.Float)} {s : Session fl.Float}
      → Reach cobs fl arrived got s
      → IsWf s
  Reach-IsWf start = init-IsWf
  Reach-IsWf (later r step) = (Step-Keeps step).wf (Reach-IsWf r)

  -- An object whose event is set keeps it in every later step, and it stays the same command.
  pub Step-stays :
      {s t : Session fl.Float} {a g : List (RxEvent fl.Float)} (ref : ℕ) (p : Pending)
      → Step cobs fl s a g t
      → get_elem? s.objects ref ≡ some p
      → (q : Pending) × (get_elem? t.objects ref ≡ some q) × Follows p q
  Step-stays ref p step h = (Step-Keeps step).evolves.kept ref p h
