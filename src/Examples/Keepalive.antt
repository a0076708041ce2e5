-- ===== src/Examples/Keepalive.antt =====
-- A run of the keepalive thread over a live session, against the device of Examples/Devices.
use client_py.Prelude.{
  ℕ, ◌<◌, ◌≡◌, refl, sym, ap, ◌∙◌, true, false, Option, none, some, subst, List, [], ◌∷◌, All,
  arith, inl, inr,
}
use client_py.Prelude.Int.{ℤ}
use client_py.Python.Result.{ok}
use client_py.Events.{empty, parse_ok_payload}
use client_py.Commands.{type_ping}
use client_py.Session.Reader.{is_alive}
use client_py.Dongle.{Dongle, Services, Ended, finished}
use client_py.Dongle.Clock.{Clocked, Beat, marks_write, wakes, round_ends, gaps}
use client_py.Dongle.Clock.Gap.{
  Steady, busy, wake, mark_busy, end_round, no_beats, wakes_old, wakes_recent, keepalive_gap,
}
use client_py.Events.Rx.{RxEvent}
use client_py.Live.{System, services, done}
use client_py.Live.Quiet.{Quiet, init-Quiet}
use client_py.Live.Answers.{Accepts}
use client_py.Live.Commands.{send_and_wait-Accepts}
use client_py.Examples.Wire.{escapes, escapes-IsCobs}
use client_py.Examples.Payloads.{in_tenths}
use client_py.Examples.Devices.{answers, staged}
use client_py.Examples.Live.{dongle_at, one-Accepts, bare}

abbrev live : Services (System ℤ ℕ) (RxEvent ℤ)
live = services escapes in_tenths staged true none

ping_parsed : parse_ok_payload type_ping [] ≡ ok empty
unfolding parse_ok_payload
ping_parsed = refl

ping_Accepts : Accepts escapes staged type_ping 1 [] 50 empty 51
ping_Accepts =
    one-Accepts type_ping 1 [] [] 50 empty (bare 1 1 refl refl) (bare 0x80 1 refl refl)
      (unfold answers in refl) refl ping_parsed

-- The world behind the PING.
abbrev pinged_world : System ℤ ℕ
pinged_world = (live.send_ping (dongle_at 50).world).1

answered : (live.send_ping (dongle_at 50).world ≡ (finished tt, pinged_world)) × Quiet pinged_world
answered =
    let e =
      send_and_wait-Accepts escapes in_tenths staged escapes-IsCobs (dongle_at 50).world
        (init-Quiet 50) 1 50 51 refl refl type_ping [] empty (omega arith) ping_Accepts in
    let r = ap done e.runs in
    let same : e.world ≡ pinged_world = ap (λ p. p.1) (sym r) in
    (r ∙ ap (λ v. (finished tt, v)) same, subst Quiet same e.quiet)

is_alive-Quiet : (w : System ℤ ℕ) → Quiet w → live.is_alive w ≡ true
unfolding is_alive
is_alive-Quiet w q = rw (q.reads_on, q.is_open) refl

abbrev clocked : Clocked (System ℤ ℕ)
clocked = record { dongle = dongle_at 50; last_write = 0; pinged = false }

abbrev behind_ping : Dongle (System ℤ ℕ)
behind_ping = record (dongle_at 50) { world = pinged_world }

-- A PING, with a call before it has returned, and a round that needs none.
abbrev behind_wake : List (Beat (System ℤ ℕ))
behind_wake = marks_write 508 behind_ping ∷ round_ends 512 ∷ wakes 1010 ∷ round_ends 1010 ∷ []

abbrev ping_and_call : List (Beat (System ℤ ℕ))
ping_and_call = wakes 505 ∷ behind_wake

-- A wake-up ends in one state.
only_state :
    {c c' : Clocked (System ℤ ℕ)} {o : Option (Ended (Unit {0}) × Clocked (System ℤ ℕ))}
    → o ≡ some (finished tt, c)
    → o ≡ some (finished tt, c')
    → c ≡ c'
only_state h k = cc

alive_first : live.is_alive clocked.dongle.world ≡ true
alive_first = is_alive-Quiet _ (init-Quiet 50)

alive_then : live.is_alive pinged_world ≡ true
alive_then = is_alive-Quiet pinged_world answered.1

keepalive_gap_example : All (λ gap. gap < 1030) (gaps live 0 ping_and_call clocked)
keepalive_gap_example = keepalive_gap live 0 10 0 ping_and_call clocked (omega arith) (
    wake (omega arith) (omega arith) alive_first (inr (pinged_world, answered.0)) λ c1 e1.
      subst (λ c. Steady live 0 10 (busy 505) c behind_wake)
        (only_state (wakes_old live 0 505 clocked pinged_world alive_first refl answered.0) e1)
        (mark_busy (omega arith) (omega arith) (
          end_round (omega arith) (omega arith) (
            wake (omega arith) (omega arith) alive_then (inl refl) λ c2 e2.
              subst (λ c. Steady live 0 10 (busy 1010) c (round_ends 1010 ∷ []))
                (only_state (wakes_recent live 0 1010 _ alive_then refl) e2)
                (end_round (omega arith) (omega arith) no_beats)))))
