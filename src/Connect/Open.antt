-- ===== src/Connect/Open.antt =====
-- donglora/connect.py: _open_and_init and _session_on, from an opened transport to a configured session.
-- The transport and the session are an interface over a world.
pub mod Bringup
pub mod Keeps
use client_py.Prelude.{
  ℕ, zero, suc, ◌≡◌, refl, Bool, true, false, Option, none, some, sym, ap, ◌==◌, if◌then◌else◌,
}
use client_py.Prelude.Int.{ℤ, pos, negsuc}
use client_py.Python.Result.{attribute_error}
use client_py.Errors.{DongloraError, donglora_error}
use client_py.Events.{OkPayload, empty, info, config_result, SetConfigResult}
use client_py.Info.{Info}
use client_py.Modulation.{Modulation, lora}
use client_py.Modulation.LoRa
use client_py.Dongle.{Dongle, Ended, finished, raised, crashed}
use client_py.Connect.{Prepared, prepared, rejected, prepare_config}
use client_py.Connect

-- `open_session` is what stands before `get_info`: `Session(transport)`, and `_open_transport` where the
-- transport is not open yet.
pub record Link (W : Type 0) : Type 0 where
  pub open_session : W → Ended (Unit {0}) × W
  pub get_info : W → Ended (Option OkPayload) × W
  pub set_config : Modulation → W → Ended (Option OkPayload) × W
  pub close_session : W → W

-- `proto_major == 1`
abbrev pub is_one : ℤ → Bool
is_one (pos n) = n == 1
is_one (negsuc n) = false

-- `config if config is not None else LoRaConfig.default()`
abbrev pub requested : Option Modulation → Modulation
requested none = lora LoRa.default
requested (some config) = config

-- Goes on with the value, unless there is an exception.
abbrev pub and_then : {W A B : Type 0} → Ended A × W → (A → W → Ended B × W) → Ended B × W
and_then (finished a, w) k = k a w
and_then (raised e, w) k = (raised e, w)
and_then (crashed e, w) k = (crashed e, w)

-- What a session that is up comes with: its info and the configuration that is applied.
abbrev pub Up : Type 0
Up = Info × Option Modulation

-- `result.current if result is not None else prepared`
abbrev pub applied_of : {W : Type 0} → Info → Modulation → Option OkPayload → W → Ended Up × W
applied_of i sent none w = (finished (i, some sent), w)
applied_of i sent (some (config_result r)) w = (finished (i, some r.current), w)
applied_of i sent (some _) w = (crashed attribute_error, w)

module _ {W : Type 0} (link : Link W) where
  -- `except DongloraError: session.close(); raise`
  abbrev pub closing : {A : Type 0} → Ended A × W → Ended A × W
  closing (finished a, w) = (finished a, w)
  closing (raised e, w) = (raised e, link.close_session w)
  closing (crashed e, w) = (crashed e, w)

  -- set_config with what _prepare_config returned.
  abbrev pub send_prepared : Info → Prepared Modulation → W → Ended Up × W
  send_prepared i (rejected e) w = (raised e, link.close_session w)
  send_prepared i (Connect.crashed e) w = (crashed e, w)
  send_prepared i (prepared m) w =
      and_then (closing (link.set_config m w)) (λ result w1. applied_of i m result w1)

  unfoldable pub configure : Bool → Option Modulation → Info → W → Ended Up × W
  configure false config i w = (finished (i, none), w)
  configure true config i w = send_prepared i (prepare_config i (requested config)) w

  unfoldable pub check_info : Bool → Option Modulation → Option OkPayload → W → Ended Up × W
  unfolding configure
  check_info auto_configure config (some (info i)) w =
      if is_one i.proto_major
      then configure auto_configure config i w
      else (raised donglora_error, link.close_session w)
  check_info auto_configure config _ w = (raised donglora_error, link.close_session w)

  -- _open_and_init behind `session = Session(transport)`.
  unfoldable pub bring_up : Bool → Option Modulation → W → Ended Up × W
  unfolding check_info
  bring_up auto_configure config w =
      and_then (closing (link.get_info w)) (check_info auto_configure config)

  unfoldable pub open_and_init : Bool → Option Modulation → W → Ended Up × W
  unfolding bring_up
  open_and_init auto_configure config w =
      and_then (link.open_session w) (λ opened w1. bring_up auto_configure config w1)

  unfoldable pub session_on : W → Ended Up × W
  unfolding bring_up
  session_on w = bring_up true none w

  -- `Dongle(session, info, applied_config=applied)`, with the reopener where there is one.
  abbrev pub dongle_on : Bool → Ended Up × W → Ended (Dongle W) × W
  dongle_on has_reopener (finished (i, applied), w) = (
    finished (record {
      info = i;
      applied_config = applied;
      rx_started = false;
      closed = false;
      has_reopener = has_reopener;
      world = w;
    }),
    w,
  )
  dongle_on has_reopener (raised e, w) = (raised e, w)
  dongle_on has_reopener (crashed e, w) = (crashed e, w)

  unfoldable pub connect : Bool → Option Modulation → W → Ended (Dongle W) × W
  connect auto_configure config w = dongle_on true (open_and_init auto_configure config w)

  -- The Dongle that _session_on returns.
  unfoldable pub dongle_of_session : W → Ended (Dongle W) × W
  dongle_of_session w = dongle_on false (session_on w)
