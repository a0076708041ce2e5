-- ===== src/Mux.antt =====
-- donglora/transport.py: MuxConnection over a socket.
pub mod Reader
use client_py.Prelude.{ℕ, List, [], ◌∷◌, length}
use client_py.Python.Result.{Error, Result, ok, err, os_error}
use client_py.Python.Struct.{Bytes}
use client_py.Frame.{Read, byte, timeout, os_failure}

-- The property `timeout`, and the timeout of the socket, in any unit.
pub record MuxConnection (F : Type 0) : Type 0 where
  pub timeout : F
  pub sock_timeout : F

-- __init__
unfoldable pub mux_connection : {F : Type 0} → F → MuxConnection F
mux_connection value = record { timeout = value; sock_timeout = value }

-- The setter of `timeout`.
unfoldable pub set_timeout : {F : Type 0} → F → MuxConnection F → MuxConnection F
set_timeout value conn = record { timeout = value; sock_timeout = value }

-- What `sock.recv(n)` does: bytes, none of them if the peer has closed, a TimeoutError, or another OSError.
pub data Received : Type 0 where
  received : Bytes → Received
  timed_out failed : Received

-- A ConnectionError is an OSError.
unfoldable pub read : Received → Result Bytes
read (received []) = err os_error
read (received (b ∷ bs)) = ok (b ∷ bs)
read timed_out = ok []
read failed = err os_error

-- What read_frame, which asks for one byte, makes of it.
abbrev as_read : Result Bytes → Read
as_read (ok []) = timeout
as_read (ok (b ∷ bs)) = byte b
as_read (err e) = os_failure

unfoldable pub mux_read : Received → Read
unfolding read
mux_read r = as_read (read r)

-- The result of `write`, from that of `sock.sendall(data)`.
unfoldable pub write : Bytes → Result (Unit {0}) → Result ℕ
write bytes (ok _) = ok (length bytes)
write bytes (err e) = err e
