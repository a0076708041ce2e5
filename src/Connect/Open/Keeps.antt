-- ===== src/Connect/Open/Keeps.antt =====
-- What every call on a session keeps, the bring-up of the session keeps.
use client_py.Prelude.{Bool, true, false, Bool-cases, inl, inr, Option, none, some}
use client_py.Events.{OkPayload, empty, info, config_result}
use client_py.Info.{Info}
use client_py.Modulation.{Modulation}
use client_py.Dongle.{Ended, finished, raised, crashed}
use client_py.Connect.{Prepared, prepared, rejected, prepare_config}
use client_py.Connect
use client_py.Connect.Open.{
  Link, and_then, applied_of, closing, send_prepared, configure, check_info, bring_up, is_one,
  open_and_init,
}

-- `P` holds behind each call if it held before it.
pub record IsKept {W : Type 0} (link : Link W) (P : W → Type 0) : Type 0 where
  pub opens : (w : W) → P w → P (link.open_session w).1
  pub asks : (w : W) → P w → P (link.get_info w).1
  pub configures : (m : Modulation) (w : W) → P w → P (link.set_config m w).1
  pub closes : (w : W) → P w → P (link.close_session w)

module _ {W : Type 0} (link : Link W) (P : W → Type 0) (laws : IsKept link P) where
  and_then-kept :
      {A B : Type 0} (r : Ended A × W) (k : A → W → Ended B × W)
      → ((a : A) (w : W) → P w → P (k a w).1)
      → P r.1
      → P (and_then r k).1
  and_then-kept (finished a, w) k later h = later a w h
  and_then-kept (raised e, w) k later h = h
  and_then-kept (crashed e, w) k later h = h

  closing-kept : {A : Type 0} (r : Ended A × W) → P r.1 → P (closing link r).1
  closing-kept (finished a, w) h = h
  closing-kept (raised e, w) h = laws.closes w h
  closing-kept (crashed e, w) h = h

  applied_of-kept :
      (i : Info) (sent : Modulation) (o : Option OkPayload) (w : W)
      → P w
      → P (applied_of i sent o w).1
  applied_of-kept i sent none w h = h
  applied_of-kept i sent (some empty) w h = h
  applied_of-kept i sent (some (info x)) w h = h
  applied_of-kept i sent (some (config_result r)) w h = h

  send_prepared-kept :
      (i : Info) (p : Prepared Modulation) (w : W) → P w → P (send_prepared link i p w).1
  send_prepared-kept i (rejected e) w h = laws.closes w h
  send_prepared-kept i (Connect.crashed e) w h = h
  send_prepared-kept i (prepared m) w h =
      and_then-kept (closing link (link.set_config m w)) (λ result w1. applied_of i m result w1)
        (λ result w1. applied_of-kept i m result w1)
        (closing-kept (link.set_config m w) (laws.configures m w h))

  configure-kept :
      (auto_configure : Bool) (config : Option Modulation) (i : Info) (w : W)
      → P w
      → P (configure link auto_configure config i w).1
  unfolding configure
  configure-kept false config i w h = h
  configure-kept true config i w h = send_prepared-kept i _ w h

  check_info-kept :
      (auto_configure : Bool) (config : Option Modulation) (o : Option OkPayload) (w : W)
      → P w
      → P (check_info link auto_configure config o w).1
  unfolding check_info
  check_info-kept auto_configure config none w h = laws.closes w h
  check_info-kept auto_configure config (some empty) w h = laws.closes w h
  check_info-kept auto_configure config (some (config_result r)) w h = laws.closes w h
  check_info-kept auto_configure config (some (info i)) w h =
      elim (Bool-cases (is_one i.proto_major)) [
        | inl one ↦ simp one (configure-kept auto_configure config i w h)
        | inr other ↦ simp other (laws.closes w h)
      ]

  pub bring_up-kept :
      (auto_configure : Bool) (config : Option Modulation) (w : W)
      → P w
      → P (bring_up link auto_configure config w).1
  unfolding bring_up
  bring_up-kept auto_configure config w h =
      and_then-kept (closing link (link.get_info w)) (check_info link auto_configure config)
        (check_info-kept auto_configure config) (closing-kept (link.get_info w) (laws.asks w h))

  pub open_and_init-kept :
      (auto_configure : Bool) (config : Option Modulation) (w : W)
      → P w
      → P (open_and_init link auto_configure config w).1
  unfolding open_and_init
  open_and_init-kept auto_configure config w h =
      and_then-kept (link.open_session w) (λ opened w1. bring_up link auto_configure config w1)
        (λ opened w1. bring_up-kept auto_configure config w1) (laws.opens w h)
