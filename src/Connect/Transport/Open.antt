-- ===== src/Connect/Transport/Open.antt =====
-- donglora/connect.py: _open_transport, and the functions that connect to the mux, up to _session_on.
use client_py.Prelude.{ℕ, zero, suc, Bool, true, false, Option, none, some, if◌then◌else◌}
use client_py.Prelude.Int.{ℤ}
use client_py.Python.Result.{Result, ok, err, file_not_found_error}
use client_py.Python.Text.{Text, codes}
use client_py.Modulation.{Modulation}
use client_py.Host.{Host}
use client_py.Discovery.{find_port, wait_for_device}
use client_py.Connect.Transport.{
  Transport, mux_tcp, Process, Opening, env, default_socket_path, find_mux_socket, socket_connect,
  try_tcp_mux, on_mux, open_unix, open_port,
}

module _ {W : Type 0} (host : Host W) where
  -- The wait for the path of the socket; `fuel` bounds the polls, and `none` means that it did not suffice.
  abbrev pub after_exists : Bool × W → (W → Option (Unit {0}) × W) → Option (Unit {0}) × W
  after_exists (true, w) again = (some tt, w)
  after_exists (false, w) again = again (host.sleep 500 w)

  unfoldable pub wait_for_path : ℕ → Text → W → Option (Unit {0}) × W
  wait_for_path zero path w = (none, w)
  wait_for_path (suc fuel) path w = after_exists (host.path_exists path w) (wait_for_path fuel path)

  abbrev pub open_awaited : Text → Bool → Option (Unit {0}) × W → Opening W
  open_awaited path used (none, w) = (none, record { used_mux = used; world = w })
  open_awaited path used (some _, w) = open_unix host path (record { used_mux = used; world = w })

  -- `if _used_mux:` of _open_transport
  unfoldable pub open_sticky : ℕ → Process W → Opening W
  open_sticky fuel p =
      let path = default_socket_path host p.world in
      open_awaited path p.used_mux (wait_for_path fuel path p.world)

  abbrev pub on_tried : Bool → Result (Option Transport) × W → (Process W → Opening W) → Opening W
  on_tried used (ok (some conn), w) otherwise =
      (some (ok conn), record { used_mux = true; world = w })
  on_tried used (ok none, w) otherwise = otherwise (record { used_mux = used; world = w })
  on_tried used (err e, w) otherwise = (some (err e), record { used_mux = used; world = w })

  abbrev pub on_env : Process W → Option Text → (Process W → Opening W) → Opening W
  on_env p none otherwise = otherwise p
  on_env p (some addr) otherwise = on_tried p.used_mux (try_tcp_mux host addr p.world) otherwise

  -- `tcp = os.environ.get("DONGLORA_MUX_TCP")` and what it leads to.
  unfoldable pub tcp_first : Process W → (Process W → Opening W) → Opening W
  tcp_first p otherwise = on_env p (env host (codes "DONGLORA_MUX_TCP") p.world) otherwise

  abbrev pub on_found : Bool → Option Text × W → (Process W → Opening W) → Opening W
  on_found used (some path, w) otherwise =
      open_unix host path (record { used_mux = used; world = w })
  on_found used (none, w) otherwise = otherwise (record { used_mux = used; world = w })

  -- `sock_path = _find_mux_socket()` and what it leads to.
  unfoldable pub socket_next : Process W → (Process W → Opening W) → Opening W
  socket_next p otherwise = on_found p.used_mux (find_mux_socket host p.world) otherwise

  abbrev pub on_awaited : Bool → Option Text × W → Opening W
  on_awaited used (none, w) = (none, record { used_mux = used; world = w })
  on_awaited used (some port, w) = open_port host port (record { used_mux = used; world = w })

  abbrev pub on_port : ℕ → Bool → Option Text × W → Opening W
  on_port fuel used (none, w) = on_awaited used (wait_for_device host fuel w)
  on_port fuel used (some port, w) = open_port host port (record { used_mux = used; world = w })

  unfoldable pub open_usb : ℕ → Process W → Opening W
  open_usb fuel p = on_port fuel p.used_mux (find_port host p.world)

  -- `port is not None` first, then `_used_mux`.
  unfoldable pub open_transport : ℕ → Option Text → Process W → Opening W
  unfolding open_sticky tcp_first socket_next open_usb
  open_transport fuel (some port) p = open_port host port p
  open_transport fuel none p =
      if p.used_mux then open_sticky fuel p else tcp_first p (λ p1. socket_next p1 (open_usb fuel))

  abbrev pub not_found : Process W → Opening W
  not_found p = (some (err file_not_found_error), p)

  unfoldable pub connect_mux_auto : Process W → Opening W
  unfolding tcp_first socket_next
  connect_mux_auto p = tcp_first p (λ p1. socket_next p1 not_found)

  abbrev pub on_single_scan : Bool → Option Text × W → Opening W
  on_single_scan used (none, w) = not_found (record { used_mux = used; world = w })
  on_single_scan used (some port, w) = open_port host port (record { used_mux = used; world = w })

  unfoldable pub single_scan : Process W → Opening W
  single_scan p = on_single_scan p.used_mux (find_port host p.world)

  unfoldable pub try_connect : Process W → Opening W
  unfolding tcp_first socket_next single_scan connect_mux_auto
  try_connect p =
      if p.used_mux then connect_mux_auto p else tcp_first p (λ p1. socket_next p1 single_scan)

  unfoldable pub mux_connect : Option Text → Process W → Opening W
  unfolding socket_next
  mux_connect (some path) p = open_unix host path p
  mux_connect none p = socket_next p not_found

  unfoldable pub mux_tcp_connect : Text → ℤ → Process W → Opening W
  mux_tcp_connect name port p =
      on_mux host p.used_mux (mux_tcp name port) (socket_connect host name port p.world)

-- The calls of a program; connect comes with its port, auto_configure and config.
pub data Call : Type 0 where
  calls_connect : Option Text → Bool → Option Modulation → Call
  calls_connect_mux_auto : Call
  calls_try_connect : Call
  calls_mux_connect : Option Text → Call
  calls_mux_tcp_connect : Text → ℤ → Call

module _ {W : Type 0} (host : Host W) (fuel : ℕ) where
  -- What a call opens before it brings up a session.
  unfoldable pub open_for : Call → Process W → Opening W
  unfolding open_transport connect_mux_auto try_connect mux_connect mux_tcp_connect
  open_for (calls_connect port auto_configure config) p = open_transport host fuel port p
  open_for calls_connect_mux_auto p = connect_mux_auto host p
  open_for calls_try_connect p = try_connect host p
  open_for (calls_mux_connect path) p = mux_connect host path p
  open_for (calls_mux_tcp_connect name port) p = mux_tcp_connect host name port p
