-- ===== src/Connect/Transport/Paths.antt =====
-- Where _open_transport looks for the mux: the path that is waited for, and the path that is connected to.
use client_py.Prelude.{
  ℕ, zero, suc, ◌<◌, ◌≡◌, ◌⊎◌, refl, ap, sym, ◌∙◌, Bool, true, false, Option, none, some, inl, inr,
  arith,
}
use client_py.Prelude.Int.{ℤ}
use client_py.Python.Result.{Result, ok, err}
use client_py.Python.Text.{Text, codes}
use client_py.Host.{Host}
use client_py.Connect.Transport.{
  Transport, mux_tcp, Process, env, default_of, default_socket_path, find_from, find_mux_socket,
  if_there, absent, find_tmp, tmp_path, socket_in, on_mux, open_unix, socket_connect,
}
use client_py.Connect.Transport.Open.{
  after_exists, wait_for_path, open_awaited, open_sticky, open_transport, mux_tcp_connect,
}

module _ {W : Type 0} (host : Host W) where
  if_there-path :
      (path : Text) (r : Bool × W) (otherwise : W → Option Text × W) (found : Text) (w1 : W)
      → if_there host path r otherwise ≡ (some found, w1)
      → (found ≡ path) ⊎ ((r.0 ≡ false) × (otherwise r.1 ≡ (some found, w1)))
  if_there-path path (true, w) otherwise found w1 h = inl cc
  if_there-path path (false, w) otherwise found w1 h = inr (refl, h)

  find_tmp-path :
      (w : W) (found : Text) (w1 : W) → find_tmp host w ≡ (some found, w1) → found ≡ tmp_path
  find_tmp-path w found w1 h =
      elim (if_there-path tmp_path (host.path_exists tmp_path w) (absent host) found w1 h) [
        | inl e ↦ e
        | inr (a, b) ↦ cc
      ]

  -- The socket under the runtime directory is missing, and the one under /tmp is connected to.
  abbrev pub FellBack : W → Text → Type 0
  FellBack w found =
      (xdg : Text) × (env host (codes "DONGLORA_MUX") w ≡ none)
      × (env host (codes "XDG_RUNTIME_DIR") w ≡ some xdg)
      × ((host.path_exists (socket_in xdg) w).0 ≡ false)
      × (found ≡ tmp_path)

  find_from-path :
      (mux xdg : Option Text) (w : W) (found : Text) (w1 : W)
      → env host (codes "DONGLORA_MUX") w ≡ mux
      → env host (codes "XDG_RUNTIME_DIR") w ≡ xdg
      → find_from host mux xdg w ≡ (some found, w1)
      → (found ≡ default_of mux xdg) ⊎ FellBack w found
  find_from-path (some path) xdg w found w1 em ex h =
      elim (if_there-path path (host.path_exists path w) (absent host) found w1 h) [
        | inl e ↦ inl e
        | inr (a, b) ↦ cc
      ]
  find_from-path none (some xdg) w found w1 em ex h =
      elim (if_there-path (socket_in xdg) (host.path_exists (socket_in xdg) w) (find_tmp host) found
        w1 h) [ inl e ↦ inl e | inr (a, b) ↦ inr (xdg, em, ex, a, find_tmp-path _ found w1 b) ]
  find_from-path none none w found w1 em ex h = inl (find_tmp-path w found w1 h)

  -- The socket that _find_mux_socket finds has the path of default_socket_path, unless DONGLORA_MUX is
  -- not set, XDG_RUNTIME_DIR is, and no socket is under it: then it is the one under /tmp.
  pub find_mux_socket-path :
      (w : W) (found : Text) (w1 : W)
      → find_mux_socket host w ≡ (some found, w1)
      → (found ≡ default_socket_path host w) ⊎ FellBack w found
  unfolding find_mux_socket default_socket_path
  find_mux_socket-path w found w1 h = find_from-path _ _ w found w1 refl refl h

  -- The path is there at the poll with index `n`, half a second after each poll without it.
  abbrev pub AppearsAt : Text → ℕ → W → W → Type 0
  AppearsAt path zero w w1 = host.path_exists path w ≡ (true, w1)
  AppearsAt path (suc n) w w1 =
      ((host.path_exists path w).0 ≡ false)
      × AppearsAt path n (host.sleep 500 (host.path_exists path w).1) w1

  wait_for_path_returns :
      (fuel n : ℕ) (path : Text) (w w1 : W)
      → n < fuel
      → AppearsAt path n w w1
      → wait_for_path host fuel path w ≡ (some tt, w1)
  unfolding wait_for_path
  wait_for_path_returns zero n path w w1 lt h = absurd (omega arith)
  wait_for_path_returns (suc fuel) zero path w w1 lt h =
      ap (λ r. after_exists host r (wait_for_path host fuel path)) h
  wait_for_path_returns (suc fuel) (suc n) path w w1 lt h =
      ap (λ b. after_exists host (b, (host.path_exists path w).1) (wait_for_path host fuel path))
        h.0
      ∙ wait_for_path_returns fuel n path (host.sleep 500 (host.path_exists path w).1) w1
          (omega arith) h.1

  -- With _used_mux set, _open_transport without a port connects to the socket of default_socket_path as
  -- soon as its path is there, with fuel for one poll more than those before, and keeps the flag.
  pub open_sticky_returns :
      (fuel n : ℕ) (w w1 : W)
      → n < fuel
      → AppearsAt (default_socket_path host w) n w w1
      → open_transport host fuel none (record { used_mux = true; world = w })
        ≡ open_unix host (default_socket_path host w) (record { used_mux = true; world = w1 })
  unfolding open_transport open_sticky
  open_sticky_returns fuel n w w1 lt h =
      ap (open_awaited host (default_socket_path host w) true)
        (wait_for_path_returns fuel n _ w w1 lt h)

  -- The world after `n` polls without the path.
  abbrev pub polled : Text → ℕ → W → W
  polled path zero w = w
  polled path (suc n) w = polled path n (host.sleep 500 (host.path_exists path w).1)

  wait_for_path_waits :
      (fuel : ℕ) (path : Text) (w : W)
      → ((n : ℕ) → (host.path_exists path (polled path n w)).0 ≡ false)
      → (wait_for_path host fuel path w).0 ≡ none
  unfolding wait_for_path
  wait_for_path_waits zero path w h = refl
  wait_for_path_waits (suc fuel) path w h =
      ap
        (λ b. (after_exists host (b, (host.path_exists path w).1) (wait_for_path host fuel path)).0)
        (h zero)
      ∙ wait_for_path_waits fuel path (host.sleep 500 (host.path_exists path w).1) (λ n. h (suc n))

  on_mux-flag :
      (used : Bool) (conn : Transport) (r : Result (Unit {0}) × W) (opened : Transport)
      (q : Process W)
      → on_mux host used conn r ≡ (some (ok opened), q)
      → q.used_mux ≡ true
  on_mux-flag used conn (ok _, w) opened q h = ap (λ o. o.1.used_mux) (sym h)
  on_mux-flag used conn (err e, w) opened q h = cc

  open_awaited-none :
      (path : Text) (used : Bool) (r : Option (Unit {0}) × W)
      → r.0 ≡ none
      → (open_awaited host path used r).0 ≡ none
  open_awaited-none path used (none, w) h = refl
  open_awaited-none path used (some _, w) h = cc

  -- If mux_tcp_connect has connected over TCP and the path of default_socket_path is never there
  -- afterwards, then _open_transport without a port never returns and raises nothing: no fuel suffices,
  -- whatever the mux on TCP would answer.
  pub tcp_then_waits :
      (name : Text) (port : ℤ) (p q : Process W) (conn : Transport) (fuel : ℕ)
      → mux_tcp_connect host name port p ≡ (some (ok conn), q)
      → ((n : ℕ)
          → (host.path_exists
              (default_socket_path host q.world)
              (polled (default_socket_path host q.world) n q.world)).0
            ≡ false)
      → (open_transport host fuel none q).0 ≡ none
  unfolding open_transport open_sticky mux_tcp_connect
  tcp_then_waits name port p q conn fuel e never =
      let flag =
        on_mux-flag p.used_mux (mux_tcp name port) (socket_connect host name port p.world) conn q
          e in
      let path = default_socket_path host q.world in
      let waits = wait_for_path_waits fuel path q.world never in
      simp flag (open_awaited-none path true (wait_for_path host fuel path q.world) waits)
