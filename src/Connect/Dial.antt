-- ===== src/Connect/Dial.antt =====
-- donglora/connect.py: connect, connect_mux_auto, try_connect, mux_connect and mux_tcp_connect as a whole.
-- A call opens a transport, brings up a session on it, and leaves the flag _used_mux behind.
pub mod Sticky
use client_py.Prelude.{ℕ, Bool, true, Option, none, some, List, [], ◌∷◌}
use client_py.Python.Result.{Result, ok, err}
use client_py.Host.{Host}
use client_py.Events.{OkPayload}
use client_py.Modulation.{Modulation}
use client_py.Dongle.{Ended, finished, crashed}
use client_py.Connect.Open.{Link, Up, and_then, open_and_init, session_on}
use client_py.Connect.Transport.{Transport, Process, Opening}
use client_py.Connect.Transport.Open.{
  Call, calls_connect, calls_connect_mux_auto, calls_try_connect, calls_mux_connect,
  calls_mux_tcp_connect, open_for,
}

-- The session on an open transport, as connect.py calls it: Session(transport), get_info, set_config and
-- close.
pub record Sessions (W : Type 0) : Type 0 where
  pub start : Transport → W → W
  pub get_info : Transport → W → Ended (Option OkPayload) × W
  pub set_config : Transport → Modulation → W → Ended (Option OkPayload) × W
  pub close : Transport → W → W

-- What a call opened, how it ended, and the process behind it; `none` where it still waits.
pub record Dialed (W : Type 0) : Type 0 where
  pub opened : Option (Result Transport)
  pub ended : Option (Ended Up)
  pub process : Process W

module _ {W : Type 0} (sessions : Sessions W) where
  abbrev pub in_world : {A : Type 0} → Process W → A × W → A × Process W
  in_world p (a, w) = (a, record p { world = w })

  -- The calls of _open_and_init and _session_on, on this transport.
  abbrev pub link_on : Transport → Link (Process W)
  link_on conn = record {
    open_session = λ p. (finished tt, record p { world = sessions.start conn p.world });
    get_info = λ p. in_world p (sessions.get_info conn p.world);
    set_config = λ m p. in_world p (sessions.set_config conn m p.world);
    close_session = λ p. record p { world = sessions.close conn p.world };
  }

  -- Session(transport), and the rest of _session_on.
  unfoldable pub on_transport : Transport → Process W → Ended Up × Process W
  unfolding session_on
  on_transport conn p =
      and_then ((link_on conn).open_session p) (λ opened p1. session_on (link_on conn) p1)

  -- _open_and_init for connect, `_session_on(transport)` for the others.
  unfoldable pub bring_up_for : Call → Transport → Process W → Ended Up × Process W
  unfolding open_and_init on_transport
  bring_up_for (calls_connect port auto_configure config) conn p =
      open_and_init (link_on conn) auto_configure config p
  bring_up_for calls_connect_mux_auto conn p = on_transport conn p
  bring_up_for calls_try_connect conn p = on_transport conn p
  bring_up_for (calls_mux_connect path) conn p = on_transport conn p
  bring_up_for (calls_mux_tcp_connect name port) conn p = on_transport conn p

  abbrev pub and_bring_up : Call → Opening W → Dialed W
  and_bring_up call (none, p) = record { opened = none; ended = none; process = p }
  and_bring_up call (some (err e), p) = record {
    opened = some (err e);
    ended = some (crashed e);
    process = p;
  }
  and_bring_up call (some (ok conn), p) =
      let (up, p1) = bring_up_for call conn p in
      record { opened = some (ok conn); ended = some up; process = p1 }

module _ {W : Type 0} (host : Host W) (sessions : Sessions W) (fuel : ℕ) where
  unfoldable pub perform : Call → Process W → Dialed W
  unfolding open_for bring_up_for
  perform call p = and_bring_up sessions call (open_for host fuel call p)

  -- The calls one after the other, whatever they raise.
  unfoldable pub perform_all : List Call → Process W → List (Call × Dialed W) × Process W
  unfolding perform
  perform_all [] p = ([], p)
  perform_all (call ∷ calls) p =
      let dialed = perform call p in
      let (rest, p1) = perform_all calls dialed.process in ((call, dialed) ∷ rest, p1)
