-- ===== src/Dongle/Lifecycle.antt =====
-- Closing a Dongle.
use client_py.Prelude.{ℕ, ◌≡◌, refl, true, some, Bool, arith}
use client_py.Python.Struct.{Bytes}
use client_py.Errors.{donglora_error}
use client_py.Modulation.{Modulation}
use client_py.Dongle.{Services, Dongle, raised, close, tx, rx, recv, rx_stop, set_config, ping}

module _ {W Rx : Type 0} (sv : Services W Rx) where
  close_closes : (d : Dongle W) → (close sv d).closed ≡ true
  unfolding close
  close_closes d = ground arith

  close_twice : (d : Dongle W) → close sv (close sv d) ≡ close sv d
  unfolding close
  close_twice d = ground arith

  -- After close(), and after any further close(), which changes nothing, every method raises
  -- DongloraError and leaves the dongle as it is.
  pub closed_refuses :
      (d : Dongle W) (n : ℕ) (bs : Bytes) (skip_cad : Bool) (config : Modulation)
      → (close sv (close sv d) ≡ close sv d)
        × (tx sv n bs skip_cad (close sv d) ≡ some (raised donglora_error, close sv d))
        × (rx sv n (close sv d) ≡ some (raised donglora_error, close sv d))
        × (recv sv n (close sv d) ≡ some (raised donglora_error, close sv d))
        × (rx_stop sv n (close sv d) ≡ some (raised donglora_error, close sv d))
        × (set_config sv n config (close sv d) ≡ some (raised donglora_error, close sv d))
        × (ping sv n (close sv d) ≡ some (raised donglora_error, close sv d))
  closed_refuses d n bs skip_cad config =
      let h = close_closes d in
      (
        close_twice d,
        unfold tx in rw h refl,
        unfold rx in rw h refl,
        unfold recv in rw h refl,
        unfold rx_stop in rw h refl,
        unfold set_config in rw h refl,
        unfold ping in rw h refl,
      )
