-- ===== src/Default.antt =====
-- donglora/_top_level.py: the default dongle of the process, connected on the first use.
pub mod Ledger
use client_py.Prelude.{ℕ, zero, suc, Bool, Option, none, some, List, [], ◌∷◌}
use client_py.Python.Struct.{Bytes}
use client_py.Events.{TxDone}
use client_py.Dongle.{Ended, finished, raised, crashed}

-- What the module calls: connect() and the methods of the Dongle that it returned, over a world. `rx`
-- makes the iterator and takes no packet.
pub record Dongles (D P W : Type 0) : Type 0 where
  pub connect : W → Ended D × W
  pub tx : D → Bytes → Bool → W → Ended TxDone × W
  pub rx : D → W → Ended (Unit {0}) × W
  pub recv : D → W → Ended (Option P) × W
  pub close : D → W → Ended (Unit {0}) × W

-- The variable _default, and how often _cleanup is registered with atexit.
pub record Module (D W : Type 0) : Type 0 where
  pub default : Option D
  pub registered : ℕ
  pub world : W

module _ {D P W : Type 0} (api : Dongles D P W) where
  abbrev pub keep_default : Module D W → Ended D × W → Ended D × Module D W
  keep_default m (finished d, w) =
      (finished d, record { default = some d; registered = suc m.registered; world = w })
  keep_default m (raised e, w) = (raised e, record m { world = w })
  keep_default m (crashed e, w) = (crashed e, record m { world = w })

  abbrev pub or_connect : Module D W → Option D → Ended D × Module D W
  or_connect m (some d) = (finished d, m)
  or_connect m none = keep_default m (api.connect m.world)

  unfoldable pub get_default : Module D W → Ended D × Module D W
  get_default m = or_connect m m.default

  abbrev pub close_suppressed : Option D → W → W
  close_suppressed none w = w
  close_suppressed (some d) w = (api.close d w).1

  -- _cleanup, and with it close().
  unfoldable pub cleanup : Module D W → Module D W
  cleanup m = record m { default = none; world = close_suppressed m.default m.world }

  -- A method of the default dongle.
  abbrev pub on_default :
      {A : Type 0} → (D → W → Ended A × W) → Ended D × Module D W → Ended A × Module D W
  on_default method (finished d, m) =
      let (result, w) = method d m.world in (result, record m { world = w })
  on_default method (raised e, m) = (raised e, m)
  on_default method (crashed e, m) = (crashed e, m)

  unfoldable pub tx : Bytes → Bool → Module D W → Ended TxDone × Module D W
  unfolding get_default
  tx bytes skip_cad m = on_default (λ d w. api.tx d bytes skip_cad w) (get_default m)

  unfoldable pub rx : Module D W → Ended (Unit {0}) × Module D W
  unfolding get_default
  rx m = on_default api.rx (get_default m)

  unfoldable pub recv : Module D W → Ended (Option P) × Module D W
  unfolding get_default
  recv m = on_default api.recv (get_default m)

-- The calls of a program, and the end of the process, which runs every registered _cleanup.
pub data Use : Type 0 where
  uses_tx : Bytes → Bool → Use
  uses_rx uses_recv uses_close : Use

module _ {D P W : Type 0} (api : Dongles D P W) where
  unfoldable pub use_once : Use → Module D W → Module D W
  unfolding tx rx recv cleanup
  use_once (uses_tx bytes skip_cad) m = (tx api bytes skip_cad m).1
  use_once uses_rx m = (rx api m).1
  use_once uses_recv m = (recv api m).1
  use_once uses_close m = cleanup api m

  unfoldable pub use_all : List Use → Module D W → Module D W
  unfolding use_once
  use_all [] m = m
  use_all (u ∷ us) m = use_all us (use_once u m)

  abbrev pub cleanups : ℕ → Module D W → Module D W
  cleanups zero m = m
  cleanups (suc n) m = cleanups n (cleanup api m)

  -- atexit
  unfoldable pub leave : Module D W → Module D W
  leave m = cleanups m.registered m
