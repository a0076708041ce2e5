-- ===== src/Dongle/Methods.antt =====
-- The methods of donglora/dongle.py one after the other, by any callers: those of the user, a round
-- of the keepalive thread, and the iterator of rx.
pub mod Keeps
pub mod Perform
use client_py.Prelude.{ℕ, Bool, Option, none, some, List, [], ◌∷◌}
use client_py.Python.Struct.{Bytes}
use client_py.Modulation.{Modulation}
use client_py.Dongle.{Services, Dongle, Run, Ended, tx, rx, recv, rx_stop, set_config, ping, close}
use client_py.Dongle.Keepalive.{keepalive_round, next_packet}

pub data Method : Type 0 where
  calls_tx : Bytes → Bool → Method
  calls_rx : Method
  calls_recv : Method
  calls_rx_stop : Method
  calls_set_config : Modulation → Method
  calls_ping : Method
  calls_close : Method
  keepalive : Bool → Method
  takes_next : Method

module _ {W Rx : Type 0} (sv : Services W Rx) where
  -- The dongle behind a method, whatever the method returns or raises.
  abbrev pub dongle_of : {A : Type 0} → Run sv A → Option (Dongle W)
  dongle_of none = none
  dongle_of (some (r, d)) = some d

  unfoldable pub perform : ℕ → Method → Dongle W → Option (Dongle W)
  perform n (calls_tx bs skip_cad) d = dongle_of (tx sv n bs skip_cad d)
  perform n calls_rx d = dongle_of (rx sv n d)
  perform n calls_recv d = dongle_of (recv sv n d)
  perform n calls_rx_stop d = dongle_of (rx_stop sv n d)
  perform n (calls_set_config config) d = dongle_of (set_config sv n config d)
  perform n calls_ping d = dongle_of (ping sv n d)
  perform n calls_close d = some (close sv d)
  perform n (keepalive recent) d = dongle_of (keepalive_round sv n recent d)
  perform n takes_next d = some (next_packet sv d).1

  abbrev pub perform_next : Option (Dongle W) → (Dongle W → Option (Dongle W)) → Option (Dongle W)
  perform_next none k = none
  perform_next (some d) k = k d

  unfoldable pub perform_all : ℕ → List Method → Dongle W → Option (Dongle W)
  perform_all n [] d = some d
  perform_all n (m ∷ ms) d = perform_next (perform n m d) (perform_all n ms)
