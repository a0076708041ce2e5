-- ===== src/Dongle/Keepalive.antt =====
-- The keepalive thread of donglora/dongle.py, and its RX iterator.
use client_py.Prelude.{
  ℕ, ◌≡◌, refl, Bool, true, false, not, ◌&&◌, Option, none, some, if◌then◌else◌, Bool-cases, inl,
  inr,
}
use client_py.Errors.{is_not_configured}
use client_py.Modulation.{Modulation}
use client_py.Dongle.{Services, Dongle, Run, Ended, finished, raised, crashed, ensure_session_alive}

module _ {W Rx : Type 0} (sv : Services W Rx) where
  -- `except DongloraError` around the reconnection.
  abbrev pub reconnected : Run sv (Unit {0}) → Run sv (Unit {0})
  reconnected (some (raised e, d)) = some (finished tt, d)
  reconnected r = r

  -- The configuration sent again; every exception is logged.
  unfoldable pub send_again : Option Modulation → W → W
  send_again none w = w
  send_again (some config) w = (sv.send_config config w).1

  -- What follows the PING of a round; every exception is logged.
  unfoldable pub after_ping : Dongle W → Ended (Unit {0}) × W → Dongle W
  unfolding send_again
  after_ping d (raised e, w) =
      if is_not_configured e
      then record d { world = send_again d.applied_config w }
      else record d { world = w }
  after_ping d (finished r, w) = record d { world = w }
  after_ping d (crashed e, w) = record d { world = w }

  -- One round of _keepalive_loop. `recent`: since < _KEEPALIVE_INTERVAL_S.
  unfoldable pub keepalive_round : ℕ → Bool → Dongle W → Run sv (Unit {0})
  unfolding ensure_session_alive after_ping
  keepalive_round n recent d =
      if not (sv.is_alive d.world) && d.has_reopener
      then reconnected (ensure_session_alive sv n d)
      else if recent
      then some (finished tt, d)
      else some (finished tt, after_ping d (sv.send_ping d.world))

  -- _RxIterator.__next__; `none` is StopIteration.
  unfoldable pub next_packet : Dongle W → Option Rx × Dongle W
  next_packet d = let (pkt, w) = sv.next_rx d.world in (pkt, record d { world = w })

  after_ping_world :
      (d : Dongle W) (r : Ended (Unit {0}) × W)
      → (w' : W) × (after_ping d r ≡ record d { world = w' })
  unfolding after_ping
  after_ping_world d (finished r, w) = (w, refl)
  after_ping_world d (crashed e, w) = (w, refl)
  after_ping_world d (raised e, w) = elim (Bool-cases (is_not_configured e)) [
    | inl unset ↦ (send_again d.applied_config w, rw unset refl)
    | inr other ↦ (w, rw other refl)
  ]

  -- On a live session a round of the keepalive thread ends with no exception, whatever the PING and the
  -- SET_CONFIG behind it give, and of the Dongle's attributes it changes none.
  pub keepalive_keeps :
      (n : ℕ) (recent : Bool) (d : Dongle W)
      → sv.is_alive d.world ≡ true
      → (w' : W) × (keepalive_round n recent d ≡ some (finished tt, record d { world = w' }))
  unfolding keepalive_round
  keepalive_keeps n true d alive = (d.world, rw alive refl)
  keepalive_keeps n false d alive =
      let (w', e) = after_ping_world d (sv.send_ping d.world) in (w', rw (alive, e) refl)
