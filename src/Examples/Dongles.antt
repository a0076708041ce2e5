-- ===== src/Examples/Dongles.antt =====
-- Runs of dongle.py over a world that is a number: how many commands were sent.
use client_py.Prelude.{List, ℕ, ◌+◌, ◌≡◌, refl, Bool, true, false, none, some, [], ◌∷◌}
use client_py.Errors.{donglora_error}
use client_py.Dongle.{
  Services, Dongle, finished, raised, opened, tx, rx, recv, rx_stop, set_config, ping, close,
}
use client_py.Dongle.Keepalive.{keepalive_round, after_ping}
use client_py.Dongle.Clock.{Clocked, Beat, marks_write, wakes, round_ends, gaps, beat, round_pings}
use client_py.Dongle.Lifecycle.{closed_refuses}
use client_py.Examples.Payloads.{default_config, sample_info, transmitted}

-- A session that stays up, and on which everything succeeds.
abbrev story : Services ℕ (Unit {0})
story = record {
  is_alive = λ w. true;
  transmit = λ bs skip_cad w. (finished transmitted, w + 1);
  send_config = λ config w. (finished tt, w + 1);
  send_rx_start = λ w. (finished tt, w + 1);
  send_rx_stop = λ w. (finished tt, w + 1);
  send_ping = λ w. (finished tt, w + 1);
  next_rx = λ w. (none, w);
  close_session = λ w. w;
  reopen = λ w. (opened sample_info none, w + 1);
  wait = λ w. (false, w);
}

abbrev dongle_at : ℕ → Bool → Dongle ℕ
dongle_at w receiving = record {
  info = sample_info;
  applied_config = some default_config;
  rx_started = receiving;
  closed = false;
  has_reopener = true;
  world = w;
}

closed_refuses_example :
    (close story (close story (dongle_at 20 true)) ≡ close story (dongle_at 20 true))
    × (tx story 1 (1 ∷ []) false (close story (dongle_at 20 true))
        ≡ some (raised donglora_error, close story (dongle_at 20 true)))
    × (rx story 1 (close story (dongle_at 20 true))
        ≡ some (raised donglora_error, close story (dongle_at 20 true)))
    × (recv story 1 (close story (dongle_at 20 true))
        ≡ some (raised donglora_error, close story (dongle_at 20 true)))
    × (rx_stop story 1 (close story (dongle_at 20 true))
        ≡ some (raised donglora_error, close story (dongle_at 20 true)))
    × (set_config story 1 default_config (close story (dongle_at 20 true))
        ≡ some (raised donglora_error, close story (dongle_at 20 true)))
    × (ping story 1 (close story (dongle_at 20 true))
        ≡ some (raised donglora_error, close story (dongle_at 20 true)))
closed_refuses_example = closed_refuses story (dongle_at 20 true) 1 (1 ∷ []) false default_config

abbrev clocked : Clocked ℕ
clocked = record { dongle = dongle_at 20 false; last_write = 0; pinged = false }

-- A method writes just behind a wake-up of the keepalive thread, which then skips one.
abbrev busy_then_quiet : List (Beat ℕ)
busy_then_quiet =
    marks_write 1 (dongle_at 21 false)
    ∷ wakes 500
    ∷ round_ends 500
    ∷ wakes 1010
    ∷ round_ends 1012
    ∷ []

gaps-busy_then_quiet : gaps story 0 busy_then_quiet clocked ≡ 1 ∷ 499 ∷ 499 ∷ 1009 ∷ 1011 ∷ []
unfolding gaps beat round_pings keepalive_round after_ping
gaps-busy_then_quiet = refl
