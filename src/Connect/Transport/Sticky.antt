-- ===== src/Connect/Transport/Sticky.antt =====
-- No opening under the flag _used_mux is that of a serial port.
use client_py.Prelude.{
  ℕ, ◌≡◌, refl, sym, subst, Bool, true, false, ◌&&◌, Option, none, some, if◌then◌else◌,
}
use client_py.Python.Text.{Text}
use client_py.Host.{Host}
use client_py.Discovery.{find_port, wait_for_device}
use client_py.Connect.Transport.{mux_tcp, Process, Opening, socket_connect, open_port}
use client_py.Connect.Transport.Open.{
  tcp_first, socket_next, on_awaited, on_port, open_usb, open_awaited, wait_for_path, open_sticky,
  open_transport, not_found, connect_mux_auto, on_single_scan, single_scan, try_connect,
  mux_connect, mux_tcp_connect, Call, calls_connect, calls_connect_mux_auto, calls_try_connect,
  calls_mux_connect, calls_mux_tcp_connect, open_for,
}
use client_py.Connect.Transport.Tracks.{
  is_portless, Tracks, and_false, nothing_opened, on_mux-Tracks, open_unix-Tracks, open_port-Tracks,
  tcp_first-Tracks, socket_next-Tracks,
}

module _ {W : Type 0} (host : Host W) where
  not_found-Tracks : (off : Bool) (p : Process W) → Tracks p.used_mux off (not_found host p)
  not_found-Tracks off p = nothing_opened p.used_mux off _ refl refl refl

  -- The mux by TCP, then by its socket, then `last`.
  mux_then :
      (off : Bool) (p : Process W) (last : Process W → Opening W)
      → ((q : Process W) → Tracks q.used_mux off (last q))
      → Tracks p.used_mux off (tcp_first host p (λ q. socket_next host q last))
  mux_then off p last later =
      tcp_first-Tracks host off p (λ q. socket_next host q last)
        (λ q. socket_next-Tracks host off q last later)

  connect_mux_auto-Tracks :
      (off : Bool) (p : Process W) → Tracks p.used_mux off (connect_mux_auto host p)
  unfolding connect_mux_auto
  connect_mux_auto-Tracks off p = mux_then off p (not_found host) (not_found-Tracks off)

  on_awaited-Tracks :
      (used : Bool) (r : Option Text × W) → Tracks used false (on_awaited host used r)
  on_awaited-Tracks used (none, w) = nothing_opened used false _ refl refl refl
  on_awaited-Tracks used (some port, w) =
      open_port-Tracks host port (record { used_mux = used; world = w })

  on_port-Tracks :
      (fuel : ℕ) (used : Bool) (r : Option Text × W) → Tracks used false (on_port host fuel used r)
  on_port-Tracks fuel used (none, w) = on_awaited-Tracks used (wait_for_device host fuel w)
  on_port-Tracks fuel used (some port, w) =
      open_port-Tracks host port (record { used_mux = used; world = w })

  open_usb-Tracks : (fuel : ℕ) (p : Process W) → Tracks p.used_mux false (open_usb host fuel p)
  unfolding open_usb
  open_usb-Tracks fuel p = on_port-Tracks fuel p.used_mux (find_port host p.world)

  on_single_scan-Tracks :
      (used : Bool) (r : Option Text × W) → Tracks used false (on_single_scan host used r)
  on_single_scan-Tracks used (none, w) =
      not_found-Tracks false (record { used_mux = used; world = w })
  on_single_scan-Tracks used (some port, w) =
      open_port-Tracks host port (record { used_mux = used; world = w })

  single_scan-Tracks : (p : Process W) → Tracks p.used_mux false (single_scan host p)
  unfolding single_scan
  single_scan-Tracks p = on_single_scan-Tracks p.used_mux (find_port host p.world)

  open_awaited-Tracks :
      (off : Bool) (path : Text) (used : Bool) (r : Option (Unit {0}) × W)
      → Tracks used off (open_awaited host path used r)
  open_awaited-Tracks off path used (none, w) = nothing_opened used off _ refl refl refl
  open_awaited-Tracks off path used (some _, w) =
      open_unix-Tracks host off path (record { used_mux = used; world = w })

  open_sticky-Tracks :
      (off : Bool) (fuel : ℕ) (p : Process W) → Tracks p.used_mux off (open_sticky host fuel p)
  unfolding open_sticky
  open_sticky-Tracks off fuel p =
      open_awaited-Tracks off _ p.used_mux (wait_for_path host fuel _ p.world)

  -- The branch under `if _used_mux:` opens no serial port.
  if_used-Tracks :
      (b used : Bool) (sticky other : Opening W)
      → ((off : Bool) → Tracks used off sticky)
      → Tracks used false other
      → Tracks used b (if b then sticky else other)
  if_used-Tracks true used sticky other h k = h true
  if_used-Tracks false used sticky other h k = k

  open_transport-Tracks :
      (fuel : ℕ) (p : Process W) → Tracks p.used_mux p.used_mux (open_transport host fuel none p)
  unfolding open_transport
  open_transport-Tracks fuel p =
      if_used-Tracks p.used_mux p.used_mux _ _ (λ off. open_sticky-Tracks off fuel p)
        (mux_then false p (open_usb host fuel) (open_usb-Tracks fuel))

  try_connect-Tracks : (p : Process W) → Tracks p.used_mux p.used_mux (try_connect host p)
  unfolding try_connect
  try_connect-Tracks p =
      if_used-Tracks p.used_mux p.used_mux _ _ (λ off. connect_mux_auto-Tracks off p)
        (mux_then false p (single_scan host) single_scan-Tracks)

  and_one : (b : Bool) → b ≡ (b && true)
  and_one true = refl
  and_one false = refl

  pub open_for-Tracks :
      (fuel : ℕ) (call : Call) (p : Process W)
      → Tracks p.used_mux (p.used_mux && is_portless call) (open_for host fuel call p)
  unfolding open_for open_transport mux_connect mux_tcp_connect
  open_for-Tracks fuel (calls_connect (some port) auto_configure config) p =
      subst (λ b. Tracks p.used_mux b (open_port host port p)) (sym (and_false p.used_mux))
        (open_port-Tracks host port p)
  open_for-Tracks fuel (calls_connect none auto_configure config) p =
      subst (λ b. Tracks p.used_mux b (open_transport host fuel none p)) (and_one p.used_mux)
        (open_transport-Tracks fuel p)
  open_for-Tracks fuel calls_connect_mux_auto p = connect_mux_auto-Tracks _ p
  open_for-Tracks fuel calls_try_connect p =
      subst (λ b. Tracks p.used_mux b (try_connect host p)) (and_one p.used_mux)
        (try_connect-Tracks p)
  open_for-Tracks fuel (calls_mux_connect (some path)) p = open_unix-Tracks host _ path p
  open_for-Tracks fuel (calls_mux_connect none) p =
      socket_next-Tracks host _ p (not_found host) (not_found-Tracks _)
  open_for-Tracks fuel (calls_mux_tcp_connect name port) p =
      on_mux-Tracks host p.used_mux _ (mux_tcp name port) (socket_connect host name port p.world)
        refl refl
