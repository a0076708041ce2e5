-- ===== src/Dongle/Methods/Perform.antt =====
-- Any methods of a Dongle keep what the calls of its session and of its reopener keep.
use client_py.Prelude.{ℕ, Bool, not, ◌&&◌, Option, none, some, List, [], ◌∷◌}
use client_py.Errors.{is_not_configured}
use client_py.Modulation.{Modulation}
use client_py.Dongle.{
  Services, Dongle, Run, Ended, finished, raised, crashed, ensure_session_alive, continue_with,
  call, with_recovery, if_open, tx, start_rx, rx, lift_rx, after_next, recv, rx_stop, set_config,
  ping, close,
}
use client_py.Dongle.Keepalive.{keepalive_round, next_packet, after_ping, send_again, reconnected}
use client_py.Dongle.Methods.{
  Method, calls_tx, calls_rx, calls_recv, calls_rx_stop, calls_set_config, calls_ping, calls_close,
  keepalive, takes_next, dongle_of, perform, perform_next, perform_all,
}
use client_py.Dongle.Methods.Keeps.{
  Preserves, holds_if, Kept, ensure-Kept, continue_with-Kept, with_recovery-Kept,
}

-- `P` holds of the world of the dongle, if there is one.
abbrev pub Holds : {W : Type 0} → (W → Type 0) → Option (Dongle W) → Type 0
Holds P none = Unit {0}
Holds P (some d) = P d.world

module _ {W Rx : Type 0} (sv : Services W Rx) (P : W → Type 0) (laws : Preserves sv P) where
  abbrev Stays : {A : Type 0} → Run sv A → Type 0
  Stays = Kept sv P laws

  open-Kept :
      {A : Type 0} (n : ℕ) (d : Dongle W) (run : Run sv A)
      → P d.world
      → Stays run
      → Stays (if_open sv d run)
  open-Kept n d run h kept = holds_if d.closed Stays _ _ h kept

  -- A method that goes on behind _ensure_session_alive.
  alive-Kept :
      {A : Type 0} (n : ℕ) (d : Dongle W) (k : Dongle W → Run sv A)
      → P d.world
      → ((d : Dongle W) → P d.world → Stays (k d))
      → Stays (continue_with sv (ensure_session_alive sv n d) k)
  alive-Kept n d k h later =
      continue_with-Kept sv P laws (ensure_session_alive sv n d) k (ensure-Kept sv P laws n d h)
        later

  start_rx-Kept : (n : ℕ) (d : Dongle W) → P d.world → Stays (start_rx sv n d)
  unfolding start_rx
  start_rx-Kept n d h = holds_if d.rx_started Stays _ _ h (
      continue_with-Kept sv P laws (with_recovery sv n sv.send_rx_start d) _
        (with_recovery-Kept sv P laws n sv.send_rx_start d laws.starts h) (λ d1 h1. h1))

  lift_rx-Kept : (r : Run sv (Unit {0})) (pkt : Option Rx) → Stays r → Stays (lift_rx sv r pkt)
  lift_rx-Kept none pkt h = tt
  lift_rx-Kept (some (finished r, d)) pkt h = h
  lift_rx-Kept (some (raised e, d)) pkt h = h
  lift_rx-Kept (some (crashed e, d)) pkt h = h

  after_next-Kept : (n : ℕ) (d : Dongle W) (r : Option Rx × W) → P r.1 → Stays (after_next sv n d r)
  unfolding after_next
  after_next-Kept n d (some pkt, w) h = h
  after_next-Kept n d (none, w) h = holds_if (sv.is_alive w) Stays _ _ h (
      lift_rx-Kept (ensure_session_alive sv n (record d { world = w })) none
        (ensure-Kept sv P laws n (record d { world = w }) h))

  recv-Kept : (n : ℕ) (d : Dongle W) → P d.world → Stays (recv sv n d)
  unfolding recv
  recv-Kept n d h = open-Kept n d _ h (
      alive-Kept n d _ h (λ d1 h1.
        continue_with-Kept sv P laws (start_rx sv n d1) _ (start_rx-Kept n d1 h1)
          (λ d2 h2. after_next-Kept n d2 (sv.next_rx d2.world) (laws.takes d2.world h2))))

  rx_stop-Kept : (n : ℕ) (d : Dongle W) → P d.world → Stays (rx_stop sv n d)
  unfolding rx_stop
  rx_stop-Kept n d h = open-Kept n d _ h (
      alive-Kept n d _ h (λ d1 h1.
        continue_with-Kept sv P laws (call sv sv.send_rx_stop d1) _ (laws.stops d1.world h1)
          (λ d2 h2. h2)))

  set_config-Kept :
      (n : ℕ) (config : Modulation) (d : Dongle W) → P d.world → Stays (set_config sv n config d)
  unfolding set_config
  set_config-Kept n config d h = open-Kept n d _ h (
      alive-Kept n d _ h (λ d1 h1.
        continue_with-Kept sv P laws (call sv (sv.send_config config) d1) _
          (laws.configures config d1.world h1) (λ d2 h2. h2)))

  ping-Kept : (n : ℕ) (d : Dongle W) → P d.world → Stays (ping sv n d)
  unfolding ping
  ping-Kept n d h = open-Kept n d _ h (alive-Kept n d _ h (λ d1 h1. laws.pings d1.world h1))

  close-Kept : (d : Dongle W) → P d.world → P (close sv d).world
  unfolding close
  close-Kept d h = holds_if d.closed (λ (e : Dongle W). P e.world) _ _ h (laws.closes d.world h)

  reconnected-Kept : (r : Run sv (Unit {0})) → Stays r → Stays (reconnected sv r)
  reconnected-Kept none h = tt
  reconnected-Kept (some (finished r, d)) h = h
  reconnected-Kept (some (raised e, d)) h = h
  reconnected-Kept (some (crashed e, d)) h = h

  send_again-Kept : (o : Option Modulation) (w : W) → P w → P (send_again sv o w)
  unfolding send_again
  send_again-Kept none w h = h
  send_again-Kept (some config) w h = laws.configures config w h

  after_ping-Kept : (d : Dongle W) (r : Ended (Unit {0}) × W) → P r.1 → P (after_ping sv d r).world
  unfolding after_ping
  after_ping-Kept d (finished r, w) h = h
  after_ping-Kept d (crashed e, w) h = h
  after_ping-Kept d (raised e, w) h =
      holds_if (is_not_configured e) (λ (d : Dongle W). P d.world) _ _
        (send_again-Kept d.applied_config w h) h

  keepalive-Kept :
      (n : ℕ) (recent : Bool) (d : Dongle W) → P d.world → Stays (keepalive_round sv n recent d)
  unfolding keepalive_round
  keepalive-Kept n recent d h =
      holds_if (not (sv.is_alive d.world) && d.has_reopener) Stays _ _
        (reconnected-Kept (ensure_session_alive sv n d) (ensure-Kept sv P laws n d h))
        (holds_if recent Stays _ _ h
          (after_ping-Kept d (sv.send_ping d.world) (laws.pings d.world h)))

  of_run : {A : Type 0} (r : Run sv A) → Stays r → Holds P (dongle_of sv r)
  of_run none h = tt
  of_run (some (r, d)) h = h

  perform-Kept : (n : ℕ) (m : Method) (d : Dongle W) → P d.world → Holds P (perform sv n m d)
  unfolding perform
  perform-Kept n (calls_tx bs skip_cad) d h = of_run _ (
      unfold tx in
      open-Kept n d _ h
        (with_recovery-Kept sv P laws n (sv.transmit bs skip_cad) d (laws.transmits bs skip_cad) h))
  perform-Kept n calls_rx d h = of_run _ (unfold rx in open-Kept n d _ h (start_rx-Kept n d h))
  perform-Kept n calls_recv d h = of_run _ (recv-Kept n d h)
  perform-Kept n calls_rx_stop d h = of_run _ (rx_stop-Kept n d h)
  perform-Kept n (calls_set_config config) d h = of_run _ (set_config-Kept n config d h)
  perform-Kept n calls_ping d h = of_run _ (ping-Kept n d h)
  perform-Kept n calls_close d h = close-Kept d h
  perform-Kept n (keepalive recent) d h = of_run _ (keepalive-Kept n recent d h)
  perform-Kept n takes_next d h = unfold next_packet in laws.takes d.world h

  perform_next-Kept :
      (o : Option (Dongle W)) (k : Dongle W → Option (Dongle W))
      → ((d : Dongle W) → P d.world → Holds P (k d))
      → Holds P o
      → Holds P (perform_next sv o k)
  perform_next-Kept none k later h = tt
  perform_next-Kept (some d) k later h = later d h

  pub perform_all-Kept :
      (n : ℕ) (ms : List Method) (d : Dongle W) → P d.world → Holds P (perform_all sv n ms d)
  unfolding perform_all
  perform_all-Kept n [] d h = h
  perform_all-Kept n (m ∷ ms) d h =
      perform_next-Kept (perform sv n m d) (perform_all sv n ms) (perform_all-Kept n ms)
        (perform-Kept n m d h)
