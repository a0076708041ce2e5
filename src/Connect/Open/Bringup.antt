-- ===== src/Connect/Open/Bringup.antt =====
-- What _open_and_init leaves behind: an established session, or a closed one.
use client_py.Prelude.{
  ◌≡◌, refl, Bool, true, false, Option, none, some, ap, subst, ==_iff, if◌then◌else◌,
}
use client_py.Prelude.Int.{ℤ, pos, negsuc}
use client_py.Python.Result.{Error}
use client_py.Errors.{DongloraError, donglora_error}
use client_py.Events.{OkPayload, empty, info, config_result, SetConfigResult}
use client_py.Info.{Info}
use client_py.Modulation.{Modulation}
use client_py.Dongle.{Ended, finished, raised, crashed}
use client_py.Connect
use client_py.Connect.{Prepared, prepared, rejected, prepare_config}
use client_py.Connect.Open.{
  Link, is_one, requested, and_then, Up, applied_of, closing, send_prepared, configure, check_info,
  bring_up,
}

module _ {W : Type 0} (link : Link W) where
  -- The world behind a close of the session.
  pub data Closed : W → Type 0 where
    closed_after : (w : W) → Closed (link.close_session w)

  -- The device told its info in version 1 of the protocol, and either no configuration was to be sent,
  -- or the one that _prepare_config gives was accepted, and the one applied is what the device echoed or,
  -- without an echo, what was sent.
  pub data Established (auto_configure : Bool) (config : Option Modulation) (w : W)
      : Up → W → Type 0 where
    unconfigured :
        {i : Info} {w1 : W}
        → link.get_info w ≡ (finished (some (info i)), w1)
        → i.proto_major ≡ pos 1
        → auto_configure ≡ false
        → Established auto_configure config w (i, none) w1
    echoed :
        {i : Info} {m : Modulation} {r : SetConfigResult} {w1 w2 : W}
        → link.get_info w ≡ (finished (some (info i)), w1)
        → i.proto_major ≡ pos 1
        → auto_configure ≡ true
        → prepare_config i (requested config) ≡ prepared m
        → link.set_config m w1 ≡ (finished (some (config_result r)), w2)
        → Established auto_configure config w (i, some r.current) w2
    silent :
        {i : Info} {m : Modulation} {w1 w2 : W}
        → link.get_info w ≡ (finished (some (info i)), w1)
        → i.proto_major ≡ pos 1
        → auto_configure ≡ true
        → prepare_config i (requested config) ≡ prepared m
        → link.set_config m w1 ≡ (finished none, w2)
        → Established auto_configure config w (i, some m) w2

  -- What a call of bring_up may end in.
  pub data Result (auto_configure : Bool) (config : Option Modulation) (w : W)
      : Ended Up × W → Type 0 where
    up :
        {u : Up} {w1 : W}
        → Established auto_configure config w u w1
        → Result auto_configure config w (finished u, w1)
    refused :
        {e : DongloraError} {w1 : W} → Closed w1 → Result auto_configure config w (raised e, w1)
    escaped : {e : Error} {w1 : W} → Result auto_configure config w (crashed e, w1)

  is_one_sound : (z : ℤ) → is_one z ≡ true → z ≡ pos 1
  is_one_sound (pos n) h = ap pos ((==_iff n 1).0 h)
  is_one_sound (negsuc n) h = cc

  module _ (config : Option Modulation) (w w1 : W) (i : Info) (m : Modulation)
      (told : link.get_info w ≡ (finished (some (info i)), w1)) (v1 : i.proto_major ≡ pos 1)
      (prep : prepare_config i (requested config) ≡ prepared m) where
    sent_from :
        (g : Ended (Option OkPayload) × W)
        → link.set_config m w1 ≡ g
        → Result true config w (and_then (closing link g) (λ result w2. applied_of i m result w2))
    sent_from (finished none, w2) h = up (silent told v1 refl prep h)
    sent_from (finished (some (config_result r)), w2) h = up (echoed told v1 refl prep h)
    sent_from (finished (some empty), w2) h = escaped
    sent_from (finished (some (info j)), w2) h = escaped
    sent_from (raised e, w2) h = refused (closed_after w2)
    sent_from (crashed e, w2) h = escaped

  module _ (config : Option Modulation) (w w1 : W) (i : Info)
      (told : link.get_info w ≡ (finished (some (info i)), w1)) (v1 : i.proto_major ≡ pos 1) where
    prepared_from :
        (p : Prepared Modulation)
        → prepare_config i (requested config) ≡ p
        → Result true config w (send_prepared link i p w1)
    prepared_from (rejected e) h = refused (closed_after w1)
    prepared_from (Connect.crashed e) h = escaped
    prepared_from (prepared m) h = sent_from config w w1 i m told v1 h (link.set_config m w1) refl

    configured :
        (auto_configure : Bool)
        → Result auto_configure config w (configure link auto_configure config i w1)
    unfolding configure
    configured false = up (unconfigured told v1 refl)
    configured true = prepared_from (prepare_config i (requested config)) refl

  module _ (auto_configure : Bool) (config : Option Modulation) (w : W) where
    version_from :
        (i : Info) (w1 : W) (v1 : Bool)
        → is_one i.proto_major ≡ v1
        → link.get_info w ≡ (finished (some (info i)), w1)
        → Result auto_configure config w (
            if v1
            then configure link auto_configure config i w1
            else (raised donglora_error, link.close_session w1))
    version_from i w1 true one told =
        configured config w w1 i told (is_one_sound i.proto_major one) auto_configure
    version_from i w1 false one told = refused (closed_after w1)

    told_from :
        (g : Ended (Option OkPayload) × W)
        → link.get_info w ≡ g
        → Result auto_configure config w
            (and_then (closing link g) (check_info link auto_configure config))
    unfolding check_info
    told_from (finished (some (info i)), w1) h = version_from i w1 (is_one i.proto_major) refl h
    told_from (finished (some empty), w1) h = refused (closed_after w1)
    told_from (finished (some (config_result r)), w1) h = refused (closed_after w1)
    told_from (finished none, w1) h = refused (closed_after w1)
    told_from (raised e, w1) h = refused (closed_after w1)
    told_from (crashed e, w1) h = escaped

    bring_up-Result : Result auto_configure config w (bring_up link auto_configure config w)
    unfolding bring_up
    bring_up-Result = told_from (link.get_info w) refl

    up_inversion :
        (u : Up) (w' : W)
        → Result auto_configure config w (finished u, w')
        → Established auto_configure config w u w'
    up_inversion u w' (up h) = h

    refused_inversion :
        (e : DongloraError) (w' : W) → Result auto_configure config w (raised e, w') → Closed w'
    refused_inversion e w' (refused h) = h

    -- If _open_and_init returns behind the opening of the session, the device has told its info in
    -- version 1 of the protocol; without auto_configure no configuration is applied, and with it the
    -- device has accepted the one that _prepare_config gives, and the one applied is the device's echo,
    -- or what was sent where the device gave none.
    pub bring_up_sound :
        (u : Up) (w' : W)
        → bring_up link auto_configure config w ≡ (finished u, w')
        → Established auto_configure config w u w'
    bring_up_sound u w' h =
        up_inversion u w' (subst (Result auto_configure config w) h bring_up-Result)

    -- If _open_and_init raises a DongloraError behind the opening of the session, closing the session
    -- was the last thing that it did.
    pub bring_up_closes :
        (e : DongloraError) (w' : W)
        → bring_up link auto_configure config w ≡ (raised e, w')
        → Closed w'
    bring_up_closes e w' h =
        refused_inversion e w' (subst (Result auto_configure config w) h bring_up-Result)
