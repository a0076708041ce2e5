-- ===== src/Dongle/Methods/Keeps.antt =====
-- What every call on a session and on the reopener keeps, every method of a Dongle keeps.
use client_py.Prelude.{
  ℕ, zero, suc, Bool, true, false, not, ◌&&◌, Option, none, some, if◌then◌else◌,
}
use client_py.Python.Struct.{Bytes}
use client_py.Errors.{DongloraError, is_not_configured}
use client_py.Info.{Info}
use client_py.Modulation.{Modulation}
use client_py.Dongle.{
  Services, Dongle, Run, Ended, finished, raised, crashed, Attempt, opened, failed, broken,
  restarted, adopt, applied_or, on_wait, on_attempt, recover_loop, ensure_session_alive,
  continue_with, call, reapply, recover_from, with_recovery,
}

-- `P` holds of the world behind each call if it held before it.
pub record Preserves {W Rx : Type 0} (sv : Services W Rx) (P : W → Type 0) : Type 0 where
  pub transmits : (bs : Bytes) (skip_cad : Bool) (w : W) → P w → P (sv.transmit bs skip_cad w).1
  pub configures : (m : Modulation) (w : W) → P w → P (sv.send_config m w).1
  pub starts : (w : W) → P w → P (sv.send_rx_start w).1
  pub stops : (w : W) → P w → P (sv.send_rx_stop w).1
  pub pings : (w : W) → P w → P (sv.send_ping w).1
  pub takes : (w : W) → P w → P (sv.next_rx w).1
  pub closes : (w : W) → P w → P (sv.close_session w)
  pub reopens : (w : W) → P w → P (sv.reopen w).1
  pub waits : (w : W) → P w → P (sv.wait w).1

abbrev pub holds_if :
    (b : Bool) → {A : Type 0} → (P : A → Type 0) → (x y : A) → P x → P y → P (if b then x else y)
holds_if true P x y p q = p
holds_if false P x y p q = q

module _ {W Rx : Type 0} (sv : Services W Rx) (P : W → Type 0) (laws : Preserves sv P) where
  -- `P` holds of the world behind a method, if the method ends.
  abbrev pub Kept : {A : Type 0} → Run sv A → Type 0
  Kept none = Unit {0}
  Kept (some (r, d)) = P d.world

  restarted-Kept : (d : Dongle W) (r : Ended (Unit {0}) × W) → P r.1 → Kept (restarted sv d r)
  restarted-Kept d (finished r, w) h = h
  restarted-Kept d (raised e, w) h = h
  restarted-Kept d (crashed e, w) h = h

  adopt-Kept :
      (d : Dongle W) (info : Info) (applied : Option Modulation) (w : W)
      → P w
      → Kept (adopt sv d info applied w)
  unfolding adopt
  adopt-Kept d info applied w h =
      let d1 : Dongle W = record d {
        info = info;
        applied_config = applied_or applied d.applied_config;
        world = w;
      } in
      holds_if d.rx_started Kept _ _ (restarted-Kept d1 (sv.send_rx_start w) (laws.starts w h)) h

  on_wait-Kept :
      (d : Dongle W) (r : Bool × W) (again : Dongle W → Run sv (Unit {0}))
      → ((d : Dongle W) → P d.world → Kept (again d))
      → P r.1
      → Kept (on_wait sv d r again)
  on_wait-Kept d (true, w) again later h = h
  on_wait-Kept d (false, w) again later h = later (record d { world = w }) h

  on_attempt-Kept :
      (d : Dongle W) (r : Attempt × W) (again : Dongle W → Run sv (Unit {0}))
      → ((d : Dongle W) → P d.world → Kept (again d))
      → P r.1
      → Kept (on_attempt sv d r again)
  on_attempt-Kept d (opened info applied, w) again later h = adopt-Kept d info applied w h
  on_attempt-Kept d (broken e, w) again later h = h
  on_attempt-Kept d (failed, w) again later h =
      on_wait-Kept d (sv.wait w) again later (laws.waits w h)

  recover_loop-Kept : (n : ℕ) (d : Dongle W) → P d.world → Kept (recover_loop sv n d)
  unfolding recover_loop
  recover_loop-Kept zero d h = tt
  recover_loop-Kept (suc n) d h = holds_if d.closed Kept _ _ h (
      on_attempt-Kept d (sv.reopen d.world) (recover_loop sv n) (recover_loop-Kept n)
        (laws.reopens d.world h))

  pub ensure-Kept : (n : ℕ) (d : Dongle W) → P d.world → Kept (ensure_session_alive sv n d)
  unfolding ensure_session_alive
  ensure-Kept n d h = holds_if (sv.is_alive d.world) Kept _ _ h (
      holds_if (not d.has_reopener) Kept _ _ h (
        recover_loop-Kept n (record d { world = sv.close_session d.world })
          (laws.closes d.world h)))

  pub continue_with-Kept :
      {A : Type 0} (r : Run sv (Unit {0})) (k : Dongle W → Run sv A)
      → Kept r
      → ((d : Dongle W) → P d.world → Kept (k d))
      → Kept (continue_with sv r k)
  unfolding continue_with
  continue_with-Kept none k h later = tt
  continue_with-Kept (some (finished r, d)) k h later = later d h
  continue_with-Kept (some (raised e, d)) k h later = h
  continue_with-Kept (some (crashed e, d)) k h later = h

  -- A call on the session that keeps `P`.
  abbrev Good : {A : Type 0} → (W → Ended A × W) → Type 0
  Good op = (w : W) → P w → P (op w).1

  reapply-Kept :
      {A : Type 0} (op : W → Ended A × W) (e : DongloraError) (o : Option Modulation) (d : Dongle W)
      → Good op
      → P d.world
      → Kept (reapply sv op e o d)
  unfolding reapply
  reapply-Kept op e none d good h = h
  reapply-Kept op e (some config) d good h =
      continue_with-Kept (call sv (sv.send_config config) d) (call sv op)
        (laws.configures config d.world h) (λ d1 h1. good d1.world h1)

  recover_from-Kept :
      {A : Type 0} (n : ℕ) (op : W → Ended A × W) (r : Ended A) (d : Dongle W)
      → Good op
      → P d.world
      → Kept (recover_from sv n op (r, d))
  unfolding recover_from
  recover_from-Kept n op (finished a) d good h = h
  recover_from-Kept n op (crashed e) d good h = h
  recover_from-Kept n op (raised e) d good h =
      holds_if (is_not_configured e) Kept _ _ (reapply-Kept op e d.applied_config d good h) (
        holds_if (not (sv.is_alive d.world) && d.has_reopener) Kept _ _
          (continue_with-Kept (ensure_session_alive sv n d) (call sv op) (ensure-Kept n d h)
            (λ d1 h1. good d1.world h1))
          h)

  pub with_recovery-Kept :
      {A : Type 0} (n : ℕ) (op : W → Ended A × W) (d : Dongle W)
      → Good op
      → P d.world
      → Kept (with_recovery sv n op d)
  unfolding with_recovery
  with_recovery-Kept n op d good h =
      continue_with-Kept (ensure_session_alive sv n d) _ (ensure-Kept n d h)
        (λ d1 h1. recover_from-Kept n op (op d1.world).0 _ good (good d1.world h1))
