-- ===== src/Connect/Transport.antt =====
-- donglora/connect.py: which transport is opened, and the flag _used_mux that keeps a process on the mux.
pub mod Open
pub mod Tracks
pub mod Sticky
pub mod Paths
use client_py.Prelude.{
  ℕ, zero, suc, Bool, true, false, ◌&&◌, not, Option, none, some, List, [], ◌∷◌, ◌++◌, ◌==◌, leb,
  ltb, ◌^◌, if◌then◌else◌,
}
use client_py.Prelude.Int.{ℤ, pos, negsuc}
use client_py.Python.Result.{
  Error, Result, ok, err, overflow_error, file_not_found_error, is_os_error,
}
use client_py.Python.Text.{Text, codes, is_empty, split_last, int_of_text}
use client_py.Host.{Host}
use client_py.Discovery.{find_port, wait_for_device}

-- What is opened: a serial port, or a MuxConnection over a Unix socket or over TCP.
pub data Transport : Type 0 where
  serial : Text → Transport
  mux_unix : Text → Transport
  mux_tcp : Text → ℤ → Transport

-- The module's variable _used_mux, and the world.
pub record Process (W : Type 0) : Type 0 where
  pub used_mux : Bool
  pub world : W

-- `none` means that the code still waits when the fuel ends.
abbrev pub Opening : Type 0 → Type 0
Opening W = Option (Result Transport) × Process W

-- os.environ.get(name), with an empty value as none
abbrev pub truthy : Option Text → Option Text
truthy none = none
truthy (some []) = none
truthy (some (c ∷ s)) = some (c ∷ s)

-- os.path.join(path, part), for a part that is relative
abbrev ends_in_slash : Text → Bool
ends_in_slash [] = true
ends_in_slash (c ∷ []) = c == 47
ends_in_slash (c ∷ d ∷ s) = ends_in_slash (d ∷ s)

unfoldable pub join : Text → Text → Text
join path part = if ends_in_slash path then path ++ part else path ++ 47 ∷ part

abbrev pub tmp_path : Text
tmp_path = codes "/tmp/donglora-mux.sock"

unfoldable pub socket_in : Text → Text
unfolding join
socket_in xdg = join (join xdg (codes "donglora")) (codes "mux.sock")

abbrev pub default_of : Option Text → Option Text → Text
default_of (some path) xdg = path
default_of none (some xdg) = socket_in xdg
default_of none none = tmp_path

-- `host or "localhost"`
abbrev or_localhost : Text → Text
or_localhost [] = codes "localhost"
or_localhost (c ∷ s) = c ∷ s

abbrev address_of : Text → Option (Text × Text) → Text × Text
address_of addr none = (codes "localhost", addr)
address_of addr (some (host, port)) = (or_localhost host, port)

-- The host and the text of the port.
unfoldable pub address : Text → Text × Text
unfolding split_last
address addr = address_of addr (split_last 58 addr)

module _ {W : Type 0} (host : Host W) where
  abbrev pub env : Text → W → Option Text
  env name w = truthy (host.get_env name w)

  unfoldable pub default_socket_path : W → Text
  default_socket_path w =
      default_of (env (codes "DONGLORA_MUX") w) (env (codes "XDG_RUNTIME_DIR") w)

  abbrev pub if_there : Text → Bool × W → (W → Option Text × W) → Option Text × W
  if_there path (true, w) otherwise = (some path, w)
  if_there path (false, w) otherwise = otherwise w

  abbrev pub absent : W → Option Text × W
  absent w = (none, w)

  abbrev pub find_tmp : W → Option Text × W
  find_tmp w = if_there tmp_path (host.path_exists tmp_path w) absent

  abbrev pub find_from : Option Text → Option Text → W → Option Text × W
  find_from (some path) xdg w = if_there path (host.path_exists path w) absent
  find_from none (some xdg) w =
      if_there (socket_in xdg) (host.path_exists (socket_in xdg) w) find_tmp
  find_from none none w = find_tmp w

  unfoldable pub find_mux_socket : W → Option Text × W
  find_mux_socket w = find_from (env (codes "DONGLORA_MUX") w) (env (codes "XDG_RUNTIME_DIR") w) w

  -- sock.connect((name, port)): a port outside a C int is refused before the lookup, one outside 16 bits
  -- behind it.
  abbrev after_lookup : Text → ℤ → Result (Unit {0}) × W → Result (Unit {0}) × W
  after_lookup name port (err e, w) = (err e, w)
  after_lookup name (negsuc n) (ok _, w) = (err overflow_error, w)
  after_lookup name (pos n) (ok _, w) =
      if ltb n 0x10000 then host.connect_tcp name n w else (err overflow_error, w)

  abbrev fits_int : ℤ → Bool
  fits_int (pos n) = ltb n (2 ^ 31)
  fits_int (negsuc n) = ltb n (2 ^ 31)

  unfoldable pub socket_connect : Text → ℤ → W → Result (Unit {0}) × W
  socket_connect name port w =
      let looked_up = after_lookup name port (host.resolve name w) in
      if fits_int port then looked_up else (err overflow_error, w)

  -- A MuxConnection, None, or an exception that is not an OSError.
  abbrev tried : Transport → Result (Unit {0}) × W → Result (Option Transport) × W
  tried conn (ok _, w) = (ok (some conn), w)
  tried conn (err e, w) = ((if is_os_error e then ok none else err e), w)

  abbrev try_port : Text → Option ℤ → W → Result (Option Transport) × W
  try_port name none w = (ok none, w)
  try_port name (some port) w = tried (mux_tcp name port) (socket_connect name port w)

  unfoldable pub try_tcp_mux : Text → W → Result (Option Transport) × W
  unfolding address int_of_text socket_connect
  try_tcp_mux addr w = let (name, port) = address addr in try_port name (int_of_text port) w

  -- connect, the flag, and MuxConnection(sock).
  abbrev pub on_mux : Bool → Transport → Result (Unit {0}) × W → Opening W
  on_mux used conn (ok _, w) = (some (ok conn), record { used_mux = true; world = w })
  on_mux used conn (err e, w) = (some (err e), record { used_mux = used; world = w })

  unfoldable pub open_unix : Text → Process W → Opening W
  open_unix path p = on_mux p.used_mux (mux_unix path) (host.connect_unix path p.world)

  abbrev pub on_serial : Bool → Text → Result (Unit {0}) × W → Opening W
  on_serial used port (ok _, w) = (some (ok (serial port)), record { used_mux = used; world = w })
  on_serial used port (err e, w) = (some (err e), record { used_mux = used; world = w })

  unfoldable pub open_port : Text → Process W → Opening W
  open_port port p = on_serial p.used_mux port (host.open_serial port p.world)
