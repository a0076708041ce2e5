-- ===== src/Connect/Dial/Sticky.antt =====
-- A process that has used the mux stays on it.
use client_py.Prelude.{
  ℕ, ◌≡◌, refl, ap, ap₂, sym, ◌∙◌, Bool, true, false, not, ◌&&◌, ◌||◌, none, some, List, [], ◌∷◌,
}
use client_py.Python.Result.{ok, err}
use client_py.Host.{Host}
use client_py.Connect.Open.{session_on}
use client_py.Connect.Open.Keeps.{IsKept, bring_up-kept, open_and_init-kept}
use client_py.Connect.Transport.{Transport, Process, Opening}
use client_py.Connect.Transport.Open.{
  Call, calls_connect, calls_connect_mux_auto, calls_try_connect, calls_mux_connect,
  calls_mux_tcp_connect, open_for,
}
use client_py.Connect.Transport.Tracks.{or_false, is_mux, is_serial, is_portless}
use client_py.Connect.Transport.Sticky.{open_for-Tracks}
use client_py.Connect.Dial.{
  Sessions, Dialed, link_on, on_transport, bring_up_for, and_bring_up, perform, perform_all,
}

module _ {W : Type 0} where
  -- No call that names no port opens a serial port after a connection to the mux; `used` is whether there
  -- was one before.
  abbrev pub stays : Bool → List (Call × Dialed W) → Bool
  stays used [] = true
  stays used ((call, dialed) ∷ later) =
      not (used && is_portless call && is_serial dialed.opened)
      && stays (used || is_mux dialed.opened) later

  abbrev pub any_mux : List (Call × Dialed W) → Bool
  any_mux [] = false
  any_mux ((call, dialed) ∷ later) = is_mux dialed.opened || any_mux later

or_assoc : (a b c : Bool) → ((a || b) || c) ≡ (a || (b || c))
or_assoc true b c = refl
or_assoc false b c = refl

not_and : (a b c : Bool) → ((a && b) && c) ≡ false → not (a && b && c) ≡ true
not_and true b c h = ap not h
not_and false b c h = refl

module _ {W : Type 0} (sessions : Sessions W) where
  link_on-IsKept :
      (conn : Transport) (used : Bool) → IsKept (link_on sessions conn) (λ p. p.used_mux ≡ used)
  link_on-IsKept conn used = record {
    opens = λ p h. h;
    asks = λ p h. h;
    configures = λ m p h. h;
    closes = λ p h. h;
  }

  on_transport-flag :
      (conn : Transport) (p : Process W) → (on_transport sessions conn p).1.used_mux ≡ p.used_mux
  unfolding on_transport session_on
  on_transport-flag conn p =
      bring_up-kept (link_on sessions conn) (λ q. q.used_mux ≡ p.used_mux)
        (link_on-IsKept conn p.used_mux) true none
        (record p { world = sessions.start conn p.world }) refl

  bring_up_for-flag :
      (call : Call) (conn : Transport) (p : Process W)
      → (bring_up_for sessions call conn p).1.used_mux ≡ p.used_mux
  unfolding bring_up_for
  bring_up_for-flag (calls_connect port auto_configure config) conn p =
      open_and_init-kept (link_on sessions conn) (λ q. q.used_mux ≡ p.used_mux)
        (link_on-IsKept conn p.used_mux) auto_configure config p refl
  bring_up_for-flag calls_connect_mux_auto conn p = on_transport-flag conn p
  bring_up_for-flag calls_try_connect conn p = on_transport-flag conn p
  bring_up_for-flag (calls_mux_connect path) conn p = on_transport-flag conn p
  bring_up_for-flag (calls_mux_tcp_connect name port) conn p = on_transport-flag conn p

  and_bring_up-flag :
      (call : Call) (o : Opening W)
      → ((and_bring_up sessions call o).process.used_mux ≡ o.1.used_mux)
        × ((and_bring_up sessions call o).opened ≡ o.0)
  and_bring_up-flag call (none, p) = (refl, refl)
  and_bring_up-flag call (some (err e), p) = (refl, refl)
  and_bring_up-flag call (some (ok conn), p) = (bring_up_for-flag call conn p, refl)

module _ {W : Type 0} (host : Host W) (sessions : Sessions W) (fuel : ℕ) where
  perform-flag :
      (call : Call) (p : Process W)
      → let d = perform host sessions fuel call p in
        (d.process.used_mux ≡ (p.used_mux || is_mux d.opened))
        × (((p.used_mux && is_portless call) && is_serial d.opened) ≡ false)
  unfolding perform
  perform-flag call p =
      let t = open_for-Tracks host fuel call p in
      let (kept, same_opened) = and_bring_up-flag sessions call (open_for host fuel call p) in
      (
        kept ∙ t.flag ∙ ap (λ o. p.used_mux || is_mux o) (sym same_opened),
        ap (λ o. (p.used_mux && is_portless call) && is_serial o) same_opened ∙ t.no_serial,
      )

  -- Over any calls of connect, connect_mux_auto, try_connect, mux_connect and mux_tcp_connect, whatever
  -- the system and the device answer and whether the waits come to an end: the flag _used_mux is set at
  -- the end exactly if it was set before or one of the calls has connected to the mux, also where its
  -- session then failed, and after a connection to the mux no call opens a serial port unless its caller
  -- names the port.
  pub perform_all_stays :
      (calls : List Call) (p : Process W)
      → ((perform_all host sessions fuel calls p).1.used_mux
          ≡ (p.used_mux || any_mux (perform_all host sessions fuel calls p).0))
        × (stays p.used_mux (perform_all host sessions fuel calls p).0 ≡ true)
  unfolding perform_all
  perform_all_stays [] p = (or_false p.used_mux, refl)
  perform_all_stays (call ∷ calls) p =
      let d = perform host sessions fuel call p in
      let (step, no_serial) = perform-flag call p in
      let (flag, later) = perform_all_stays calls d.process in
      let rest = (perform_all host sessions fuel calls d.process).0 in
      (
        flag
            ∙ ap (λ b. b || any_mux rest) step
            ∙ or_assoc p.used_mux (is_mux d.opened) (any_mux rest),
        ap₂ ◌&&◌ (not_and p.used_mux (is_portless call) (is_serial d.opened) no_serial)
            (ap (λ b. stays b rest) (sym step) ∙ later),
      )
