-- ===== src/Dongle.antt =====
-- donglora/dongle.py: the user's object, which recovers its session. What a method calls on the session
-- and on the reopener is an interface; a method maps the world that they act on to the next one.
pub mod Lifecycle
pub mod Recovery
pub mod Keepalive
pub mod Clock
pub mod Methods
use client_py.Prelude.{
  ℕ, zero, suc, Bool, true, false, not, ◌&&◌, Option, none, some, if◌then◌else◌,
}
use client_py.Python.Result.{Error}
use client_py.Python.Struct.{Bytes}
use client_py.Errors.{DongloraError, donglora_error, is_not_configured}
use client_py.Events.{TxDone}
use client_py.Info.{Info}
use client_py.Modulation.{Modulation}

-- How a call ends: with a value, with an exception of the client, or with another one.
pub data Ended (A : Type 0) : Type 0 where
  finished : A → Ended A
  raised : DongloraError → Ended A
  crashed : Error → Ended A

-- One call of the reopener. `failed`: a DongloraError or an OSError.
pub data Attempt : Type 0 where
  opened : Info → Option Modulation → Attempt
  failed : Attempt
  broken : Error → Attempt

-- `wait` is `_keepalive_stop.wait(backoff)`: whether another thread has called close() meanwhile.
pub record Services (W Rx : Type 0) : Type 0 where
  pub is_alive : W → Bool
  pub transmit : Bytes → Bool → W → Ended TxDone × W
  pub send_config : Modulation → W → Ended (Unit {0}) × W
  pub send_rx_start : W → Ended (Unit {0}) × W
  pub send_rx_stop : W → Ended (Unit {0}) × W
  pub send_ping : W → Ended (Unit {0}) × W
  pub next_rx : W → Option Rx × W
  pub close_session : W → W
  pub reopen : W → Attempt × W
  pub wait : W → Bool × W

-- The attributes of Dongle, without the keepalive thread and its clock. `has_reopener`:
-- `_reopener is not None`.
pub record Dongle (W : Type 0) : Type 0 where
  pub info : Info
  pub applied_config : Option Modulation
  pub rx_started : Bool
  pub closed : Bool
  pub has_reopener : Bool
  pub world : W

-- `if applied is not None: self._applied_config = applied`
abbrev pub applied_or : Option Modulation → Option Modulation → Option Modulation
applied_or none old = old
applied_or (some applied) old = some applied

module _ {W Rx : Type 0} (sv : Services W Rx) where
  -- What a method gives: how it ended and the dongle, or `none` when it is still retrying after as many
  -- attempts to reconnect as the fuel allows.
  abbrev pub Run : Type 0 → Type 0
  Run A = Option (Ended A × Dongle W)

  abbrev pub restarted : Dongle W → Ended (Unit {0}) × W → Run (Unit {0})
  restarted d (finished r, w) = some (finished tt, record d { world = w })
  restarted d (raised e, w) = some (finished tt, record d { world = w; rx_started = false })
  restarted d (crashed e, w) = some (crashed e, record d { world = w })

  -- Behind a reopener that returned: new_session, new_info and applied are stored, and RX restarts.
  unfoldable pub adopt : Dongle W → Info → Option Modulation → W → Run (Unit {0})
  adopt d info applied w =
      let d1 : Dongle W = record d {
        info = info;
        applied_config = applied_or applied d.applied_config;
        world = w;
      } in
      if d.rx_started then restarted d1 (sv.send_rx_start w) else some (finished tt, d1)

  -- Behind the wait for the backoff.
  abbrev pub on_wait : Dongle W → Bool × W → (Dongle W → Run (Unit {0})) → Run (Unit {0})
  on_wait d (true, w) again = some (finished tt, record d { world = w; closed = true })
  on_wait d (false, w) again = again (record d { world = w })

  -- Behind one call of the reopener.
  abbrev pub on_attempt : Dongle W → Attempt × W → (Dongle W → Run (Unit {0})) → Run (Unit {0})
  on_attempt d (opened info applied, w) again = adopt d info applied w
  on_attempt d (broken e, w) again = some (crashed e, record d { world = w })
  on_attempt d (failed, w) again = on_wait d (sv.wait w) again

  -- The loop of _recover_session_locked.
  unfoldable pub recover_loop : ℕ → Dongle W → Run (Unit {0})
  unfolding adopt
  recover_loop zero d = none
  recover_loop (suc n) d =
      if d.closed then some (finished tt, d) else on_attempt d (sv.reopen d.world) (recover_loop n)

  unfoldable pub ensure_session_alive : ℕ → Dongle W → Run (Unit {0})
  unfolding recover_loop
  ensure_session_alive n d =
      if sv.is_alive d.world
      then some (finished tt, d)
      else if not d.has_reopener
      then some (raised donglora_error, d)
      else recover_loop n (record d { world = sv.close_session d.world })

  -- Goes on with the dongle unless the first part raised.
  unfoldable pub continue_with : {A : Type 0} → Run (Unit {0}) → (Dongle W → Run A) → Run A
  continue_with none k = none
  continue_with (some (finished r, d)) k = k d
  continue_with (some (raised e, d)) k = some (raised e, d)
  continue_with (some (crashed e, d)) k = some (crashed e, d)

  abbrev pub at_world : {A : Type 0} → Dongle W → Ended A × W → Ended A × Dongle W
  at_world d (r, w) = (r, record d { world = w })

  -- A call on the session.
  abbrev pub call : {A : Type 0} → (W → Ended A × W) → Dongle W → Run A
  call op d = some (at_world d (op d.world))

  -- `except NotConfiguredError`
  unfoldable pub reapply :
      {A : Type 0} → (W → Ended A × W) → DongloraError → Option Modulation → Dongle W → Run A
  unfolding continue_with
  reapply op e none d = some (raised e, d)
  reapply op e (some config) d = continue_with (call (sv.send_config config) d) (call op)

  -- The two `except` clauses of _with_recovery.
  unfoldable pub recover_from : {A : Type 0} → ℕ → (W → Ended A × W) → Ended A × Dongle W → Run A
  unfolding reapply continue_with ensure_session_alive
  recover_from n op (finished a, d) = some (finished a, d)
  recover_from n op (crashed e, d) = some (crashed e, d)
  recover_from n op (raised e, d) =
      if is_not_configured e
      then reapply op e d.applied_config d
      else if not (sv.is_alive d.world) && d.has_reopener
      then continue_with (ensure_session_alive n d) (call op)
      else some (raised e, d)

  unfoldable pub with_recovery : {A : Type 0} → ℕ → (W → Ended A × W) → Dongle W → Run A
  unfolding ensure_session_alive continue_with recover_from
  with_recovery n op d =
      continue_with (ensure_session_alive n d) (λ d1. recover_from n op (at_world d1 (op d1.world)))

  -- _check_open in front of a method.
  abbrev pub if_open : {A : Type 0} → Dongle W → Run A → Run A
  if_open d run = if d.closed then some (raised donglora_error, d) else run

  unfoldable pub tx : ℕ → Bytes → Bool → Dongle W → Run TxDone
  unfolding with_recovery
  tx n bs skip_cad d = if_open d (with_recovery n (sv.transmit bs skip_cad) d)

  -- Starts RX unless it runs.
  unfoldable pub start_rx : ℕ → Dongle W → Run (Unit {0})
  unfolding with_recovery continue_with
  start_rx n d =
      if d.rx_started
      then some (finished tt, d)
      else continue_with (with_recovery n sv.send_rx_start d)
          (λ d1. some (finished tt, record d1 { rx_started = true }))

  -- rx, without the iterator that it returns.
  unfoldable pub rx : ℕ → Dongle W → Run (Unit {0})
  unfolding start_rx
  rx n d = if_open d (start_rx n d)

  abbrev pub lift_rx : Run (Unit {0}) → Option Rx → Run (Option Rx)
  lift_rx none pkt = none
  lift_rx (some (finished r, d)) pkt = some (finished pkt, d)
  lift_rx (some (raised e, d)) pkt = some (raised e, d)
  lift_rx (some (crashed e, d)) pkt = some (crashed e, d)

  -- The end of recv, from what next_rx gave.
  unfoldable pub after_next : ℕ → Dongle W → Option Rx × W → Run (Option Rx)
  unfolding ensure_session_alive
  after_next n d (some pkt, w) = some (finished (some pkt), record d { world = w })
  after_next n d (none, w) =
      if sv.is_alive w
      then some (finished none, record d { world = w })
      else lift_rx (ensure_session_alive n (record d { world = w })) none

  unfoldable pub recv : ℕ → Dongle W → Run (Option Rx)
  unfolding ensure_session_alive start_rx after_next continue_with
  recv n d = if_open d (
      continue_with (ensure_session_alive n d)
        (λ d1. continue_with (start_rx n d1) (λ d2. after_next n d2 (sv.next_rx d2.world))))

  unfoldable pub rx_stop : ℕ → Dongle W → Run (Unit {0})
  unfolding ensure_session_alive continue_with
  rx_stop n d = if_open d (
      continue_with (ensure_session_alive n d) (λ d1.
        continue_with (call sv.send_rx_stop d1)
          (λ d2. some (finished tt, record d2 { rx_started = false }))))

  unfoldable pub set_config : ℕ → Modulation → Dongle W → Run (Unit {0})
  unfolding ensure_session_alive continue_with
  set_config n config d = if_open d (
      continue_with (ensure_session_alive n d) (λ d1.
        continue_with (call (sv.send_config config) d1) (λ d2.
          some (finished tt, record d2 { applied_config = some config; rx_started = false }))))

  unfoldable pub ping : ℕ → Dongle W → Run (Unit {0})
  unfolding ensure_session_alive continue_with
  ping n d = if_open d (continue_with (ensure_session_alive n d) (call sv.send_ping))

  unfoldable pub close : Dongle W → Dongle W
  close d = if d.closed then d else record d { closed = true; world = sv.close_session d.world }
