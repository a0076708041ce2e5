-- ===== src/Mux/Reader.antt =====
-- The reader thread on a mux connection that the peer closes.
use client_py.Prelude.{ℕ, suc, ◌≡◌, refl, false, some, List, [], ◌∷◌, ◌++◌, map, All, ==_ne}
use client_py.Python.Result.{err, os_error}
use client_py.Python.Struct.{Bytes}
use client_py.Python.Float.{Floats}
use client_py.Frame.{Cobs, read_loop, read_frame}
use client_py.Frame.Stream.{NonZero}
use client_py.Session.State.{Session}
use client_py.Session.Reader.{reader_round, reader_exit}
use client_py.Session.Loop.{reader_loop, ended}
use client_py.Mux.{Received, received, read, mux_read}

-- recv(1) for each byte.
abbrev pub singly : Bytes → List Received
singly [] = []
singly (b ∷ bs) = received (b ∷ []) ∷ singly bs

module _ (cobs : Cobs) where
  read_loop-closed :
      (buf bs : Bytes) (later : List Received)
      → All NonZero bs
      → read_loop cobs buf (map mux_read (singly bs ++ received [] ∷ later))
        ≡ some (err os_error, map mux_read later)
  unfolding read_loop mux_read read
  read_loop-closed buf [] later h = refl
  read_loop-closed buf (b ∷ bs) later h =
      rw (==_ne b 0 h.0) (read_loop-closed (buf ++ b ∷ []) bs later h.1)

module _ (cobs : Cobs) (fl : Floats) where
  -- If the peer of a mux connection closes it, also in the middle of a frame, the reader thread of a
  -- session that is not closed ends in that round and wakes the pending commands as its `finally` does.
  pub reader_loop-peer_closed :
      (fuel : ℕ) (bs : Bytes) (later : List Received) (s : Session fl.Float)
      → All NonZero bs
      → s.closed ≡ false
      → reader_loop cobs fl (suc fuel) (map mux_read (singly bs ++ received [] ∷ later)) s
        ≡ ended (map mux_read later) (reader_exit s)
  unfolding reader_loop reader_round read_frame
  reader_loop-peer_closed fuel bs later s h alive =
      simp (alive, read_loop-closed cobs [] bs later h)
