-- ===== src/Examples/Opening.antt =====
-- Runs of _open_and_init over a world that counts what was done with the session.
use client_py.Prelude.{ℕ, ◌+◌, ◌≡◌, refl, ◌==◌, true, none, some, if◌then◌else◌}
use client_py.Errors.{timeout_error}
use client_py.Events.{info, config_result, SetConfigResult}
use client_py.Events.Enums.{SetConfigResultCode, Owner}
use client_py.Modulation.{Modulation}
use client_py.Dongle.{finished, raised}
use client_py.Connect.{prepare_config, prepare_lora, has_bit, clamp_power}
use client_py.Connect.Open.{Link, bring_up, check_info, configure}
use client_py.Connect.Open.Bringup.{Closed, Established, bring_up_sound, bring_up_closes}
use client_py.Examples.Payloads.{sample_info, default_config}

abbrev pub echo : Modulation → SetConfigResult
echo m = record { result = SetConfigResultCode.applied; owner = Owner.mine; current = m }

-- A device that answers, from world 0, and one that does not, from any other world.
abbrev device : Link ℕ
device = record {
  open_session = λ w. (finished tt, w);
  get_info = λ w.
      if w == 0 then (finished (some (info sample_info)), 1) else (raised timeout_error, w + 1);
  set_config = λ m w. (finished (some (config_result (echo m))), w + 1);
  close_session = λ w. w + 100;
}

comes_up : bring_up device true none 0 ≡ (finished (sample_info, some default_config), 2)
unfolding bring_up check_info configure prepare_config prepare_lora has_bit clamp_power
comes_up = refl

goes_down : bring_up device true none 5 ≡ (raised timeout_error, 106)
unfolding bring_up
goes_down = refl

bring_up_sound_example : Established device true none 0 (sample_info, some default_config) 2
bring_up_sound_example =
    bring_up_sound device true none 0 (sample_info, some default_config) 2 comes_up

bring_up_closes_example : Closed device 106
bring_up_closes_example = bring_up_closes device true none 5 timeout_error 106 goes_down
