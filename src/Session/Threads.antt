-- ===== src/Session/Threads.antt =====
-- The threads of a session, interleaved in any order. A step is one operation of a calling thread, of
-- the reader thread, or of a thread that takes packets or closes the session.
pub mod Settled
pub mod Evolves
pub mod Keeps
pub mod Invariant
pub mod Queues
pub mod Fifo
pub mod Answers
pub mod Dead
use client_py.Prelude.{
  ℕ, ◌≡◌, Bool, true, false, ◌&&◌, Option, none, some, List, [], ◌∷◌, ◌++◌, ◌==◌, if◌then◌else◌,
}
use client_py.Python.Result.{Result, ok, err}
use client_py.Python.Struct.{Bytes}
use client_py.Python.Float.{Floats}
use client_py.Frame.{Cobs, Frame}
use client_py.Errors.{frame_error}
use client_py.Events.{type_rx}
use client_py.Events.Rx
use client_py.Events.Rx.{RxEvent}
use client_py.Session.State.{Session, init}
use client_py.Session.Send.{begin, forget_pending}
use client_py.Session.Cases.{packets_of}
use client_py.Session.Reader.{dispatch, put_error, reader_exit, close, next_rx, drain_async_errors}

abbrev pub to_list {ℓ} : {A : Type ℓ} → Option A → List A
to_list none = []
to_list (some a) = a ∷ []

module _ (cobs : Cobs) (fl : Floats) where
  -- A step from `s` with the packets that arrive and those that a caller gets. `finishes` is the `finally`
  -- of a command, with any tag; the reader thread works until it has left its loop.
  pub data Step (s : Session fl.Float)
      : List (RxEvent fl.Float) → List (RxEvent fl.Float) → Session fl.Float → Type 0 where
    begins :
        (cmd_type : ℕ) (payload : Result Bytes) (write : Result (Unit {0}))
        → Step s [] [] (begin cobs cmd_type payload write s).1
    finishes : (tag : ℕ) → Step s [] [] (forget_pending tag s)
    dispatches :
        (frame : Frame)
        → s.reader_dead ≡ false
        → Step s (packets_of fl frame) [] (dispatch fl frame s).1
    bad_frame : s.reader_dead ≡ false → Step s [] [] (put_error s frame_error)
    exits : s.reader_dead ≡ false → Step s [] [] (reader_exit s)
    takes : Step s [] (to_list (next_rx s).0) (next_rx s).1
    drains : Step s [] [] (drain_async_errors s).1
    closes : Step s [] [] (close s)

  -- The states that a new session can come to, with all packets that have arrived and all that callers
  -- have got.
  pub data Reach
      : List (RxEvent fl.Float) → List (RxEvent fl.Float) → Session fl.Float → Type 0 where
    start : Reach [] [] init
    later :
        {arrived got a g : List (RxEvent fl.Float)} {s t : Session fl.Float}
        → Reach arrived got s
        → Step s a g t
        → Reach (arrived ++ a) (got ++ g) t
