-- ===== src/Session/Loop.antt =====
-- The whole _reader_loop over the reads that the transport will give, while no other thread acts.
pub mod Runs
use client_py.Prelude.{ℕ, zero, suc, List}
use client_py.Python.Float.{Floats}
use client_py.Frame.{Cobs, Read}
use client_py.Session.State.{Session}
use client_py.Session.Reader.{Round, continued, exited, waiting, reader_round, reader_exit}

-- Where the thread is: it has ended, it is inside a read with these reads before the one that it waits
-- for, or the fuel did not suffice.
pub data Loop (Float : Type 0) : Type 0 where
  ended reading : List Read → Session Float → Loop Float
  out_of_fuel : Loop Float

module _ {Float : Type 0} where
  abbrev pub after_round :
      List Read
      → Session Float
      → Round Float
      → (List Read → Session Float → Loop Float)
      → Loop Float
  after_round reads s (continued rest t) again = again rest t
  after_round reads s (exited rest t) again = ended rest (reader_exit t)
  after_round reads s waiting again = reading reads s

module _ (cobs : Cobs) (fl : Floats) where
  -- The `while` loop and its `finally`. `fuel` bounds the rounds.
  unfoldable pub reader_loop : ℕ → List Read → Session fl.Float → Loop fl.Float
  reader_loop zero reads s = out_of_fuel
  reader_loop (suc fuel) reads s =
      after_round reads s (reader_round cobs fl reads s) (reader_loop fuel)
