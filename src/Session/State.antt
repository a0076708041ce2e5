-- ===== src/Session/State.antt =====
-- The state of donglora/session.py: the class _Pending and the attributes of Session.
use client_py.Prelude.{ℕ, Bool, false, Option, none, List, [], ◌∷◌, get_elem?, set, some}
use client_py.Python.Struct.{Bytes}
use client_py.Python.Dict.{Dict}
use client_py.Errors.{DongloraError}
use client_py.Events.{OkPayload, TxDone}
use client_py.Events.Rx.{RxEvent}

-- `event` is whether the threading.Event is set. `ok_payload` is `none` until an OK frame is handled.
pub record Pending : Type 0 where
  pub tag : ℕ
  pub cmd_type : ℕ
  pub event : Bool
  pub ok_payload : Option OkPayload
  pub err : Option DongloraError
  pub tx_done : Option TxDone

-- What stands on `_rx_queue`: an event, or _DEAD_SENTINEL.
pub data RxItem (Float : Type 0) : Type 0 where
  rx_event : RxEvent Float → RxItem Float
  dead_sentinel : RxItem Float

-- A _Pending is shared by the dict and the thread that waits on it, so `objects` holds every one that
-- was made, and a reference to one is its index there. `_pending` maps a tag to a reference.
-- `written` is what was written to the transport.
pub record Session (Float : Type 0) : Type 0 where
  pub next_tag : ℕ
  pub objects : List Pending
  pub pending : Dict ℕ
  pub rx_queue : List (RxItem Float)
  pub async_errors : List DongloraError
  pub closed : Bool
  pub reader_dead : Bool
  pub written : List Bytes

-- Session.__init__
abbrev pub init : {Float : Type 0} → Session Float
init = record {
  next_tag = 1;
  objects = [];
  pending = [];
  rx_queue = [];
  async_errors = [];
  closed = false;
  reader_dead = false;
  written = [];
}

-- An assignment to the attributes of the object `ref`.
abbrev update_some : List Pending → ℕ → Option Pending → (Pending → Pending) → List Pending
update_some objects ref none f = objects
update_some objects ref (some p) f = set objects ref (f p)

unfoldable pub update : List Pending → ℕ → (Pending → Pending) → List Pending
update objects ref f = update_some objects ref (get_elem? objects ref) f

-- The same assignment to each of the objects `refs`.
unfoldable pub update_all : List Pending → List ℕ → (Pending → Pending) → List Pending
update_all objects [] f = objects
update_all objects (ref ∷ refs) f = update_all (update objects ref f) refs f
