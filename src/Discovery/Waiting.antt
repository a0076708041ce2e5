-- ===== src/Discovery/Waiting.antt =====
-- wait_for_device comes to its end.
use client_py.Prelude.{ℕ, zero, suc, ◌<◌, ◌≡◌, ap, ◌∙◌, none, some, ◌∷◌, arith}
use client_py.Python.Text.{Text}
use client_py.Host.{Host}
use client_py.Discovery.{after_find, find_port, wait_for_device}

module _ {W : Type 0} (host : Host W) where
  -- A port is found by the poll with index `n`, half a second after each poll that found none.
  abbrev pub AppearsAt : ℕ → W → ℕ → Text → Type 0
  AppearsAt zero w c port = (find_port host w).0 ≡ some (c ∷ port)
  AppearsAt (suc n) w c port =
      ((find_port host w).0 ≡ none) × AppearsAt n (host.sleep 500 (find_port host w).1) c port

  -- If a port with a path that is not empty is found at last, wait_for_device returns it, with fuel for
  -- one poll more than those that find none.
  pub wait_for_device_returns :
      (fuel n : ℕ) (w : W) (c : ℕ) (port : Text)
      → n < fuel
      → AppearsAt n w c port
      → (wait_for_device host fuel w).0 ≡ some (c ∷ port)
  unfolding wait_for_device
  wait_for_device_returns zero n w c port lt h = absurd (omega arith)
  wait_for_device_returns (suc fuel) zero w c port lt h =
      ap (λ o. (after_find host (o, (find_port host w).1) (wait_for_device host fuel)).0) h
  wait_for_device_returns (suc fuel) (suc n) w c port lt h =
      ap (λ o. (after_find host (o, (find_port host w).1) (wait_for_device host fuel)).0) h.0
      ∙ wait_for_device_returns fuel n (host.sleep 500 (find_port host w).1) c port (omega arith)
          h.1
