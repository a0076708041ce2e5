-- ===== src/Dongle/Recovery.antt =====
-- Reconnection and recovery of a Dongle.
use client_py.Prelude.{
  ℕ, zero, suc, ◌<◌, ◌≡◌, refl, true, false, Option, none, some, Bool, arith, if◌then◌else◌, ◌∙◌,
  ap,
}
use client_py.Python.Struct.{Bytes}
use client_py.Errors.{DongloraError, is_not_configured}
use client_py.Info.{Info}
use client_py.Modulation.{Modulation}
use client_py.Dongle.{
  Services, Dongle, Ended, finished, raised, opened, failed, applied_or, adopt, recover_loop,
  ensure_session_alive, continue_with, at_world, call, reapply, recover_from, with_recovery, tx,
  recv, start_rx, after_next, lift_rx,
}

if_false : {A : Type 0} (b : Bool) (x y : A) → b ≡ false → (if b then x else y) ≡ y
if_false true x y h = cc
if_false false x y h = refl

if_true : {A : Type 0} (b : Bool) (x y : A) → b ≡ true → (if b then x else y) ≡ x
if_true true x y h = refl
if_true false x y h = cc

module _ {W Rx : Type 0} (sv : Services W Rx) where
  -- From the world `w`, `n` calls of the reopener fail, each with a wait that nothing interrupts, and the
  -- world behind these is the last argument.
  pub data Failures : ℕ → W → W → Type 0 where
    no_more : {w : W} → Failures zero w w
    one_more :
        {n : ℕ} {w w1 w2 w3 : W}
        → sv.reopen w ≡ (failed, w1)
        → sv.wait w1 ≡ (false, w2)
        → Failures n w2 w3
        → Failures (suc n) w w3

  loop_retry :
      (n : ℕ) (d : Dongle W) (w1 w2 : W)
      → d.closed ≡ false
      → sv.reopen d.world ≡ (failed, w1)
      → sv.wait w1 ≡ (false, w2)
      → recover_loop sv (suc n) d ≡ recover_loop sv n (record d { world = w2 })
  unfolding recover_loop
  loop_retry n d w1 w2 is_open e f = if_false d.closed _ _ is_open ∙ rw (e, f) refl

  module _ (info : Info) (applied : Option Modulation) (w' : W) where
    recover_loop-Failures :
        (n fuel : ℕ) (v w : W) (d : Dongle W)
        → n < fuel
        → d.closed ≡ false
        → d.world ≡ v
        → Failures n v w
        → sv.reopen w ≡ (opened info applied, w')
        → recover_loop sv fuel d ≡ adopt sv d info applied w'
    unfolding recover_loop adopt
    recover_loop-Failures n zero v w d lt is_open at fails opens = absurd (omega arith)
    recover_loop-Failures zero (suc fuel) v w d lt is_open at no_more opens =
        simp (is_open, at, opens)
    recover_loop-Failures (suc n) (suc fuel) v w d lt is_open at (one_more {w2 = w2} e f later)
          opens =
        let rest =
          recover_loop-Failures n fuel w2 w (record d { world = w2 }) (omega arith) is_open refl
            later opens in
        loop_retry fuel d _ w2 is_open (ap sv.reopen at ∙ e) f ∙ rest

  ensure_dead :
      (n : ℕ) (d : Dongle W)
      → sv.is_alive d.world ≡ false
      → d.has_reopener ≡ true
      → ensure_session_alive sv n d
        ≡ recover_loop sv n (record d { world = sv.close_session d.world })
  unfolding ensure_session_alive
  ensure_dead n d dead can_reopen = simp (dead, can_reopen)

  module _ (n fuel : ℕ) (d : Dongle W) (w w' : W) (info : Info) (applied : Option Modulation)
      (enough : n < fuel) (is_open : d.closed ≡ false) (can_reopen : d.has_reopener ≡ true)
      (dead : sv.is_alive d.world ≡ false) (fails : Failures n (sv.close_session d.world) w)
      (opens : sv.reopen w ≡ (opened info applied, w')) where
    reconnect : ensure_session_alive sv fuel d ≡ adopt sv d info applied w'
    unfolding adopt
    reconnect =
        ensure_dead fuel d dead can_reopen
        ∙ recover_loop-Failures info applied w' n fuel (sv.close_session d.world) w
            (record d { world = sv.close_session d.world }) enough is_open refl fails opens

    -- With fuel for more than `n` attempts, the dead session of an open Dongle is replaced after `n`
    -- failed attempts that no close() interrupts, if it has a reopener, the reopener then returns and RX, which was running, can be started again: the
    -- Dongle has the new info, the configuration that the reopener applied, if any, and RX running.
    pub reconnect_resumes :
        (w'' : W)
        → d.rx_started ≡ true
        → sv.send_rx_start w' ≡ (finished tt, w'')
        → ensure_session_alive sv fuel d
          ≡ some (
            finished tt,
            record d {
              info = info;
              applied_config = applied_or applied d.applied_config;
              world = w'';
            },
          )
    unfolding adopt
    reconnect_resumes w'' running starts = reconnect ∙ rw (running, starts) refl

    reconnect_quiet :
        d.rx_started ≡ false
        → ensure_session_alive sv fuel d
          ≡ some (
            finished tt,
            record d {
              info = info;
              applied_config = applied_or applied d.applied_config;
              world = w';
            },
          )
    unfolding adopt
    reconnect_quiet quiet = reconnect ∙ rw quiet refl

  module _ (n : ℕ) (d : Dongle W) (bs : Bytes) (skip_cad : Bool) (e : DongloraError) (w1 : W)
      (is_open : d.closed ≡ false) (alive : sv.is_alive d.world ≡ true)
      (fails : sv.transmit bs skip_cad d.world ≡ (raised e, w1)) where
    tx_failed :
        tx sv n bs skip_cad d
        ≡ recover_from sv n (sv.transmit bs skip_cad) (raised e, record d { world = w1 })
    unfolding tx with_recovery ensure_session_alive continue_with
    tx_failed = rw (is_open, alive, fails) refl

    -- A tx on a live session that the device refuses for want of a configuration sends the last
    -- configuration again and, if that succeeds, ends as the second transmission does; of the Dongle's
    -- attributes none changes.
    pub tx_reapplies :
        (config : Modulation) (w2 : W)
        → is_not_configured e ≡ true
        → d.applied_config ≡ some config
        → sv.send_config config w1 ≡ (finished tt, w2)
        → tx sv n bs skip_cad d ≡ some (at_world sv d (sv.transmit bs skip_cad w2))
    unfolding recover_from reapply continue_with
    tx_reapplies config w2 unset had applies = tx_failed ∙ rw (unset, had, applies) refl

  retry :
      {A : Type 0} (n : ℕ) (d : Dongle W) (op : W → Ended A × W) (e : DongloraError)
      → is_not_configured e ≡ false
      → sv.is_alive d.world ≡ false
      → d.has_reopener ≡ true
      → recover_from sv n op (raised e, d)
        ≡ continue_with sv (ensure_session_alive sv n d) (call sv op)
  unfolding recover_from
  retry n d op e other dead can_reopen = simp (other, dead, can_reopen)

  -- With fuel for more than `n` attempts, a tx whose session dies under it, with another error than a
  -- missing configuration, reconnects after `n` failed attempts and ends as the transmission on the new session does, if the Dongle
  -- is open, has a reopener and was not receiving.
  pub tx_reconnects :
      (n fuel : ℕ) (d : Dongle W) (bs : Bytes) (skip_cad : Bool) (e : DongloraError) (w1 w w' : W)
      (info : Info) (applied : Option Modulation)
      → n < fuel
      → d.closed ≡ false
      → d.has_reopener ≡ true
      → d.rx_started ≡ false
      → sv.is_alive d.world ≡ true
      → sv.transmit bs skip_cad d.world ≡ (raised e, w1)
      → is_not_configured e ≡ false
      → sv.is_alive w1 ≡ false
      → Failures n (sv.close_session w1) w
      → sv.reopen w ≡ (opened info applied, w')
      → tx sv fuel bs skip_cad d
        ≡ some (
            at_world sv
              (record d { info = info; applied_config = applied_or applied d.applied_config })
              (sv.transmit bs skip_cad w'))
  unfolding continue_with
  tx_reconnects n fuel d bs skip_cad e w1 w w' info applied enough is_open can_reopen quiet alive
        fails other dead failures opens =
      let back =
        reconnect_quiet n fuel (record d { world = w1 }) w w' info applied enough is_open can_reopen
          dead failures opens quiet in
      tx_failed fuel d bs skip_cad e w1 is_open alive fails
      ∙ retry fuel (record d { world = w1 }) (sv.transmit bs skip_cad) e other dead can_reopen
      ∙ ap (λ r. continue_with sv r (call sv (sv.transmit bs skip_cad))) back

  -- A recv on a live session that RX runs on takes what next_rx gives.
  pub recv_takes :
      (n : ℕ) (d : Dongle W)
      → d.closed ≡ false
      → d.rx_started ≡ true
      → sv.is_alive d.world ≡ true
      → recv sv n d ≡ after_next sv n d (sv.next_rx d.world)
  unfolding recv start_rx continue_with ensure_session_alive
  recv_takes n d is_open running alive =
      if_false d.closed _ _ is_open
      ∙ ap
          (λ r. continue_with sv r (λ d1.
            continue_with sv (start_rx sv n d1) (λ d2. after_next sv n d2 (sv.next_rx d2.world))))
          (if_true (sv.is_alive d.world) _ _ alive)
      ∙ ap (λ r. continue_with sv r (λ d2. after_next sv n d2 (sv.next_rx d2.world)))
          (if_true d.rx_started _ _ running)

  -- The same, where the session has died and can be replaced.
  pub recv_dead :
      (n : ℕ) (d d' : Dongle W) (w1 : W)
      → d.closed ≡ false
      → d.rx_started ≡ true
      → sv.is_alive d.world ≡ true
      → sv.next_rx d.world ≡ (none, w1)
      → sv.is_alive w1 ≡ false
      → ensure_session_alive sv n (record d { world = w1 }) ≡ some (finished tt, d')
      → recv sv n d ≡ some (finished none, d')
  unfolding after_next
  recv_dead n d d' w1 is_open running alive takes dead back =
      recv_takes n d is_open running alive
      ∙ ap (after_next sv n d) takes
      ∙ if_false (sv.is_alive w1) _ _ dead
      ∙ ap (λ r. lift_rx sv r none) back
