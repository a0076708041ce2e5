-- ===== src/Dongle/Clock.antt =====
-- The clock of donglora/dongle.py: when something was last marked as written, and when the keepalive
-- thread sends a PING. Times are milliseconds of the monotonic clock.
pub mod Gap
use client_py.Prelude.{
  ℕ, ◌-◌, Bool, true, false, not, ◌&&◌, Option, none, some, List, [], ◌∷◌, if◌then◌else◌, ltb,
}
use client_py.Dongle.{Services, Dongle, Run, Ended, finished, raised, crashed}
use client_py.Dongle.Keepalive.{keepalive_round}

-- _KEEPALIVE_INTERVAL_S
abbrev pub keepalive_interval : ℕ
keepalive_interval = 500

-- A Dongle with _last_write_time. `pinged`: a PING of the keepalive thread's round has returned, and its
-- time is not marked yet.
pub record Clocked (W : Type 0) : Type 0 where
  pub dongle : Dongle W
  pub last_write : ℕ
  pub pinged : Bool

-- What happens to the clock: a method calls _mark_write and leaves this dongle; the wait of the
-- keepalive thread is over, with the time of its test; its round is over, with the time behind its PING.
-- A method may come between a wake-up and the end of its round.
pub data Beat (W : Type 0) : Type 0 where
  marks_write : ℕ → Dongle W → Beat W
  wakes : ℕ → Beat W
  round_ends : ℕ → Beat W

-- When the beat happens.
abbrev pub at_time : {W : Type 0} → Beat W → ℕ
at_time (marks_write now d) = now
at_time (wakes now) = now
at_time (round_ends later) = later

module _ {W Rx : Type 0} (sv : Services W Rx) where
  abbrev returns : Ended (Unit {0}) → Bool
  returns (finished r) = true
  returns (raised e) = false
  returns (crashed e) = false

  -- Whether the round that begins at `now` sends a PING that returns.
  unfoldable pub round_pings : ℕ → Clocked W → Bool
  round_pings now c =
      if not (sv.is_alive c.dongle.world) && c.dongle.has_reopener
      then false
      else if ltb (now - c.last_write) keepalive_interval
      then false
      else returns (sv.send_ping c.dongle.world).0

  abbrev pub on_clock : Run sv (Unit {0}) → ℕ → Bool → Option (Ended (Unit {0}) × Clocked W)
  on_clock none last ping = none
  on_clock (some (r, d)) last ping =
      some (r, record { dongle = d; last_write = last; pinged = ping })

  unfoldable pub beat : ℕ → Beat W → Clocked W → Option (Ended (Unit {0}) × Clocked W)
  unfolding round_pings
  beat n (marks_write now d) c = some (finished tt, record c { dongle = d; last_write = now })
  beat n (wakes now) c =
      on_clock (keepalive_round sv n (ltb (now - c.last_write) keepalive_interval) c.dongle)
        c.last_write (round_pings now c)
  beat n (round_ends later) c = some (
    finished tt,
    record c { last_write = if c.pinged then later else c.last_write; pinged = false },
  )

  -- For each beat, how long ago something was marked as written, until the keepalive thread ends.
  abbrev pub on_beat : ℕ → Option (Ended (Unit {0}) × Clocked W) → (Clocked W → List ℕ) → List ℕ
  on_beat gap none again = gap ∷ []
  on_beat gap (some (finished r, c)) again = gap ∷ again c
  on_beat gap (some (raised e, c)) again = gap ∷ []
  on_beat gap (some (crashed e, c)) again = gap ∷ []

  unfoldable pub gaps : ℕ → List (Beat W) → Clocked W → List ℕ
  unfolding beat
  gaps n [] c = []
  gaps n (b ∷ bs) c = on_beat (at_time b - c.last_write) (beat n b c) (gaps n bs)
