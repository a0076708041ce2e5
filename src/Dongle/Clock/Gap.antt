-- ===== src/Dongle/Clock/Gap.antt =====
-- How long the clock of donglora/dongle.py goes without a mark.
use client_py.Prelude.{
  ℕ, ◌+◌, ◌-◌, ◌*◌, ◌<◌, ◌≤◌, ◌≡◌, ◌⊎◌, refl, sym, true, false, some, List, [], ◌∷◌, if◌then◌else◌,
  ltb, ltb→lt, All, subst, arith, Bool-cases, inl, inr,
}
use client_py.Dongle.{Services, Dongle, finished}
use client_py.Dongle.Keepalive.{keepalive_round, after_ping}
use client_py.Dongle.Clock.{
  keepalive_interval, Clocked, Beat, marks_write, wakes, round_ends, round_pings, beat, on_beat,
  gaps,
}

-- The keepalive thread waits since this time, or is in the round that began then.
pub data Phase : Type 0 where
  waiting busy : ℕ → Phase

module _ {W Rx : Type 0} (sv : Services W Rx) where
  -- A run in which the thread wakes within its interval and `slack`, and a round takes at most `slack`,
  -- with any methods meanwhile; where the thread wakes, the session is alive, and a PING that it sends
  -- returns.
  pub data Steady (n slack : ℕ) : Phase → Clocked W → List (Beat W) → Type 0 where
    no_beats : {at : Phase} {c : Clocked W} → Steady n slack at c []
    mark_waiting :
        {start now : ℕ} {d : Dongle W} {c : Clocked W} {bs : List (Beat W)}
        → start ≤ now
        → now ≤ start + keepalive_interval + slack
        → Steady n slack (waiting start) (record c { dongle = d; last_write = now }) bs
        → Steady n slack (waiting start) c (marks_write now d ∷ bs)
    mark_busy :
        {woke now : ℕ} {d : Dongle W} {c : Clocked W} {bs : List (Beat W)}
        → woke ≤ now
        → now ≤ woke + slack
        → Steady n slack (busy woke) (record c { dongle = d; last_write = now }) bs
        → Steady n slack (busy woke) c (marks_write now d ∷ bs)
    wake :
        {start now : ℕ} {c : Clocked W} {bs : List (Beat W)}
        → start ≤ now
        → now ≤ start + keepalive_interval + slack
        → sv.is_alive c.dongle.world ≡ true
        → (ltb (now - c.last_write) keepalive_interval ≡ true)
          ⊎ ((w' : W) × (sv.send_ping c.dongle.world ≡ (finished tt, w')))
        → ((c' : Clocked W)
            → beat sv n (wakes now) c ≡ some (finished tt, c')
            → Steady n slack (busy now) c' bs)
        → Steady n slack (waiting start) c (wakes now ∷ bs)
    end_round :
        {woke later : ℕ} {c : Clocked W} {bs : List (Beat W)}
        → woke ≤ later
        → later ≤ woke + slack
        → Steady n slack
            (waiting later)
            (record c { last_write = if c.pinged then later else c.last_write; pinged = false })
            bs
        → Steady n slack (busy woke) c (round_ends later ∷ bs)

  -- How far back the last mark may be.
  Near : ℕ → Phase → Clocked W → Type 0
  Near slack (waiting start) c = start < c.last_write + keepalive_interval + slack
  Near slack (busy woke) c =
      (woke < c.last_write + 2 * keepalive_interval + 2 * slack)
      × (c.pinged ≡ false → woke < c.last_write + keepalive_interval)

  -- A wake-up that skips its PING, and one whose PING returns.
  pub wakes_recent :
      (n now : ℕ) (c : Clocked W)
      → sv.is_alive c.dongle.world ≡ true
      → ltb (now - c.last_write) keepalive_interval ≡ true
      → beat sv n (wakes now) c ≡ some (finished tt, record c { pinged = false })
  unfolding beat round_pings keepalive_round
  wakes_recent n now c alive recent = rw (alive, recent) refl

  pub wakes_old :
      (n now : ℕ) (c : Clocked W) (w' : W)
      → sv.is_alive c.dongle.world ≡ true
      → ltb (now - c.last_write) keepalive_interval ≡ false
      → sv.send_ping c.dongle.world ≡ (finished tt, w')
      → beat sv n (wakes now) c
        ≡ some (finished tt, record c { dongle = record c.dongle { world = w' }; pinged = true })
  unfolding beat round_pings keepalive_round after_ping
  wakes_old n now c w' alive old ping = rw (alive, old, ping) refl

  -- The end of such a wake-up is no exception.
  wake_returns :
      (n now : ℕ) (c : Clocked W)
      → sv.is_alive c.dongle.world ≡ true
      → (ltb (now - c.last_write) keepalive_interval ≡ true)
        ⊎ ((w' : W) × (sv.send_ping c.dongle.world ≡ (finished tt, w')))
      → (c' : Clocked W) × (beat sv n (wakes now) c ≡ some (finished tt, c'))
        × (c'.last_write ≡ c.last_write)
        × (c'.pinged ≡ false → now < c.last_write + keepalive_interval)
  wake_returns n now c alive ping =
      elim (Bool-cases (ltb (now - c.last_write) keepalive_interval)) [
        | inl recent ↦
            let lt = ltb→lt (now - c.last_write) keepalive_interval recent in
            (_, wakes_recent n now c alive recent, refl, λ _. omega (arith, lt))
        | inr old ↦ elim ping [
          | inl recent ↦ cc
          | inr (w', returned) ↦ (_, wakes_old n now c w' alive old returned, refl, λ h. cc)
        ]
      ]

  end_round-Near :
      (slack woke later : ℕ) (c : Clocked W)
      → Near slack (busy woke) c
      → later ≤ woke + slack
      → later < (if c.pinged then later else c.last_write) + keepalive_interval + slack
  unfolding Near
  end_round-Near slack woke later c near short = elim (Bool-cases c.pinged) [
    | inl pinged ↦ rw pinged (omega arith)
    | inr not_pinged ↦ let lt = near.1 not_pinged in rw not_pinged (omega (arith, lt, short))
  ]

  gaps-Near :
      (n slack : ℕ) (at : Phase) (bs : List (Beat W)) (c : Clocked W)
      → Near slack at c
      → Steady n slack at c bs
      → All (λ gap. gap < 2 * keepalive_interval + 3 * slack) (gaps sv n bs c)
  unfolding gaps beat Near
  gaps-Near n slack at [] c near no_beats = tt
  gaps-Near n slack (waiting start) (marks_write now d ∷ bs) c near
        (mark_waiting after before later) =
      (omega (arith, near, before), gaps-Near n slack _ bs _ (omega (arith, after)) later)
  gaps-Near n slack (busy woke) (marks_write now d ∷ bs) c near (mark_busy after before later) = (
    omega (arith, near.0, before),
    gaps-Near n slack _ bs _ (omega (arith, after), λ _. omega (arith, after)) later,
  )
  gaps-Near n slack (busy woke) (wakes now ∷ bs) c near steady = elim steady [ ]
  gaps-Near n slack (waiting start) (wakes now ∷ bs) c near (wake after before alive ping later) =
      let (c', e, same, pings) = wake_returns n now c alive ping in
      subst
        (λ o.
          All (λ gap. gap < 2 * keepalive_interval + 3 * slack)
            (on_beat sv (now - c.last_write) o (gaps sv n bs)))
        (sym e)
        (
          omega (arith, near, before),
          gaps-Near n slack (busy now) bs c' (rw same (omega (arith, near, before), pings))
              (later c' e),
        )
  gaps-Near n slack (waiting start) (round_ends end ∷ bs) c near steady = elim steady [ ]
  gaps-Near n slack (busy woke) (round_ends end ∷ bs) c near (end_round after before later) = (
    omega (arith, near.0, before),
    gaps-Near n slack _ bs _ (end_round-Near slack woke end c near before) later,
  )

  -- If the keepalive thread wakes within its interval and `slack`, its rounds take at most `slack`, the
  -- session is alive whenever it wakes and every PING that it sends returns, then less than twice the
  -- interval and three times `slack` has passed since the last mark at every call of a method, at every
  -- wake-up and at the end of every round, provided that less than the interval and `slack` had when the
  -- thread first started to wait. Methods may be called while it waits and during its rounds.
  pub keepalive_gap :
      (n slack start : ℕ) (bs : List (Beat W)) (c : Clocked W)
      → start < c.last_write + keepalive_interval + slack
      → Steady n slack (waiting start) c bs
      → All (λ gap. gap < 2 * keepalive_interval + 3 * slack) (gaps sv n bs c)
  unfolding Near
  keepalive_gap n slack start bs c near steady = gaps-Near n slack (waiting start) bs c near steady
