-- ===== src/Connect/Transport/Tracks.antt =====
-- What the steps of an opening do to the flag _used_mux.
use client_py.Prelude.{
  ◌≡◌, refl, ap, sym, subst, ◌∙◌, Bool, true, false, ◌&&◌, ◌||◌, Option, none, some, Bool-cases,
  inl, inr,
}
use client_py.Prelude.Int.{ℤ}
use client_py.Python.Result.{Result, ok, err, is_os_error}
use client_py.Python.Text.{Text, codes, int_of_text}
use client_py.Host.{Host}
use client_py.Connect.Transport.{
  Transport, serial, mux_unix, mux_tcp, Process, Opening, env, find_mux_socket, socket_connect,
  try_tcp_mux, on_mux, open_unix, open_port, on_serial, tried, try_port, address,
}
use client_py.Connect.Transport.Open.{
  on_tried, on_env, tcp_first, on_found, socket_next, Call, calls_connect,
}

-- What was opened is a connection to the mux.
abbrev pub is_mux : Option (Result Transport) → Bool
is_mux (some (ok (mux_unix path))) = true
is_mux (some (ok (mux_tcp name port))) = true
is_mux _ = false

abbrev pub is_serial : Option (Result Transport) → Bool
is_serial (some (ok (serial port))) = true
is_serial _ = false

-- The call names no serial port.
abbrev pub is_portless : Call → Bool
is_portless (calls_connect (some port) auto_configure config) = false
is_portless _ = true

pub or_false : (b : Bool) → b ≡ (b || false)
or_false true = refl
or_false false = refl

pub and_false : (b : Bool) → (b && false) ≡ false
and_false true = refl
and_false false = refl

pub or_true : (b : Bool) → true ≡ (b || true)
or_true true = refl
or_true false = refl

module _ {W : Type 0} where
  -- From the flag `used`, the flag is set exactly if it was or the mux has been connected, and no serial
  -- port is opened where `off_serial` holds.
  pub record Tracks (used off_serial : Bool) (o : Opening W) : Type 0 where
    pub flag : o.1.used_mux ≡ (used || is_mux o.0)
    pub no_serial : (off_serial && is_serial o.0) ≡ false

  -- A result that opens nothing, and keeps the flag.
  pub nothing_opened :
      (used off : Bool) (o : Opening W)
      → o.1.used_mux ≡ used
      → is_mux o.0 ≡ false
      → is_serial o.0 ≡ false
      → Tracks used off o
  nothing_opened used off o h m s = record {
    flag = h ∙ or_false used ∙ ap (λ b. used || b) (sym m);
    no_serial = ap (λ b. off && b) s ∙ and_false off;
  }

module _ {W : Type 0} (host : Host W) where
  pub on_mux-Tracks :
      (used off : Bool) (conn : Transport) (r : Result (Unit {0}) × W)
      → is_mux (some (ok conn)) ≡ true
      → is_serial (some (ok conn)) ≡ false
      → Tracks used off (on_mux host used conn r)
  on_mux-Tracks used off conn (ok _, w) m s = record {
    flag = or_true used ∙ ap (λ b. used || b) (sym m);
    no_serial = ap (λ b. off && b) s ∙ and_false off;
  }
  on_mux-Tracks used off conn (err e, w) m s = nothing_opened used off _ refl refl refl

  pub open_unix-Tracks :
      (off : Bool) (path : Text) (p : Process W) → Tracks p.used_mux off (open_unix host path p)
  unfolding open_unix
  open_unix-Tracks off path p =
      on_mux-Tracks p.used_mux off (mux_unix path) (host.connect_unix path p.world) refl refl

  on_serial-Tracks :
      (used : Bool) (port : Text) (r : Result (Unit {0}) × W)
      → Tracks used false (on_serial host used port r)
  on_serial-Tracks used port (ok _, w) = record { flag = or_false used; no_serial = refl }
  on_serial-Tracks used port (err e, w) = nothing_opened used false _ refl refl refl

  pub open_port-Tracks :
      (port : Text) (p : Process W) → Tracks p.used_mux false (open_port host port p)
  unfolding open_port
  open_port-Tracks port p = on_serial-Tracks p.used_mux port (host.open_serial port p.world)

  abbrev IsConnection : Transport → Type 0
  IsConnection conn = (is_mux (some (ok conn)) ≡ true) × (is_serial (some (ok conn)) ≡ false)

  tried-IsConnection :
      (name : Text) (port : ℤ) (r : Result (Unit {0}) × W) (conn : Transport) (w1 : W)
      → tried host (mux_tcp name port) r ≡ (ok (some conn), w1)
      → IsConnection conn
  tried-IsConnection name port (ok _, w) conn w1 h =
      let e : mux_tcp name port ≡ conn = cc in subst IsConnection e (refl, refl)
  tried-IsConnection name port (err e, w) conn w1 h = elim (Bool-cases (is_os_error e)) [
    | inl o ↦
        let h' : ◌≡◌ {A = Result (Option Transport) × W} (ok none, w) (ok (some conn), w1) =
          rw o at h in
        cc
    | inr n ↦
        let h' : ◌≡◌ {A = Result (Option Transport) × W} (err e, w) (ok (some conn), w1) =
          rw n at h in
        cc
  ]

  try_port-IsConnection :
      (name : Text) (port : Option ℤ) (w : W) (conn : Transport) (w1 : W)
      → try_port host name port w ≡ (ok (some conn), w1)
      → IsConnection conn
  try_port-IsConnection name none w conn w1 h = cc
  try_port-IsConnection name (some port) w conn w1 h =
      tried-IsConnection name port (socket_connect host name port w) conn w1 h

  on_tried-Tracks :
      (used off : Bool) (r : Result (Option Transport) × W) (otherwise : Process W → Opening W)
      → ((conn : Transport) (w1 : W) → r ≡ (ok (some conn), w1) → IsConnection conn)
      → ((p : Process W) → Tracks p.used_mux off (otherwise p))
      → Tracks used off (on_tried host used r otherwise)
  on_tried-Tracks used off (ok (some conn), w) otherwise mux later =
      let (m, s) = mux conn w refl in
      record {
        flag = or_true used ∙ ap (λ b. used || b) (sym m);
        no_serial = ap (λ b. off && b) s ∙ and_false off;
      }
  on_tried-Tracks used off (ok none, w) otherwise mux later =
      later (record { used_mux = used; world = w })
  on_tried-Tracks used off (err e, w) otherwise mux later = nothing_opened used off _ refl refl refl

  on_env-Tracks :
      (off : Bool) (p : Process W) (addr : Option Text) (otherwise : Process W → Opening W)
      → ((q : Process W) → Tracks q.used_mux off (otherwise q))
      → Tracks p.used_mux off (on_env host p addr otherwise)
  unfolding try_tcp_mux
  on_env-Tracks off p none otherwise later = later p
  on_env-Tracks off p (some addr) otherwise later =
      on_tried-Tracks p.used_mux off (try_tcp_mux host addr p.world) otherwise
        (λ conn w1 h.
          try_port-IsConnection (address addr).0 (int_of_text (address addr).1) p.world conn w1 h)
        later

  pub tcp_first-Tracks :
      (off : Bool) (p : Process W) (otherwise : Process W → Opening W)
      → ((q : Process W) → Tracks q.used_mux off (otherwise q))
      → Tracks p.used_mux off (tcp_first host p otherwise)
  unfolding tcp_first
  tcp_first-Tracks off p otherwise later =
      on_env-Tracks off p (env host (codes "DONGLORA_MUX_TCP") p.world) otherwise later

  on_found-Tracks :
      (used off : Bool) (r : Option Text × W) (otherwise : Process W → Opening W)
      → ((q : Process W) → Tracks q.used_mux off (otherwise q))
      → Tracks used off (on_found host used r otherwise)
  on_found-Tracks used off (some path, w) otherwise later =
      open_unix-Tracks off path (record { used_mux = used; world = w })
  on_found-Tracks used off (none, w) otherwise later = later (record { used_mux = used; world = w })

  pub socket_next-Tracks :
      (off : Bool) (p : Process W) (otherwise : Process W → Opening W)
      → ((q : Process W) → Tracks q.used_mux off (otherwise q))
      → Tracks p.used_mux off (socket_next host p otherwise)
  unfolding socket_next
  socket_next-Tracks off p otherwise later =
      on_found-Tracks p.used_mux off (find_mux_socket host p.world) otherwise later
