-- ===== src/Session/Send.antt =====
-- The sending side of donglora/session.py: tags, pending slots, and commands. A command is two steps
-- of the calling thread: `begin` up to the wait for the event, and `finish` behind it.
use client_py.Prelude.{
  ℕ, ◌+◌, bit_and, Bool, true, false, Option, none, some, [], ◌∷◌, ◌++◌, ◌==◌, if◌then◌else◌,
  length, get_elem?,
}
use client_py.Prelude.Int.{pos}
use client_py.Python.Result.{Result, ok, err, ◌>>=◌}
use client_py.Python.Struct.{Bytes}
use client_py.Python.Dict
use client_py.Frame.{Cobs, encode_frame}
use client_py.Errors.{DongloraError, donglora_error, timeout_error}
use client_py.Events.{OkPayload, TxDone}
use client_py.Commands.{
  type_ping, type_get_info, type_set_config, type_tx, type_rx_start, type_rx_stop,
  encode_ping_payload, encode_get_info_payload, encode_set_config_payload, encode_tx_payload,
  encode_rx_start_payload, encode_rx_stop_payload,
}
use client_py.Modulation.{Modulation}
use client_py.Session.State.{Session, Pending}

-- The new value of `_next_tag` in _alloc_tag.
unfoldable pub following_tag : ℕ → ℕ
following_tag tag = let next = bit_and (tag + 1) 0xffff in if next == 0 then 1 else next

module _ {Float : Type 0} where
  unfoldable pub alloc_tag : Session Float → ℕ × Session Float
  unfolding following_tag
  alloc_tag s = (s.next_tag, record s { next_tag = following_tag s.next_tag })

  -- _register_pending, with a reference to the new object.
  unfoldable pub register_pending : ℕ → ℕ → Session Float → ℕ × Session Float
  register_pending tag cmd_type s =
      let ref = length s.objects in
      let p : Pending = record {
        tag = tag;
        cmd_type = cmd_type;
        event = false;
        ok_payload = none;
        err = none;
        tx_done = none;
      } in
      (ref, record s { objects = s.objects ++ p ∷ []; pending = Dict.insert tag ref s.pending })

  unfoldable pub forget_pending : ℕ → Session Float → Session Float
  forget_pending tag s = record s { pending = Dict.pop tag s.pending }

  -- `try: ... finally: self._forget_pending(tag)` where the write raises.
  unfoldable pub after_write :
      ℕ → ℕ → Result Bytes → Result (Unit {0}) → Session Float → Result (ℕ × ℕ) × Session Float
  unfolding forget_pending
  after_write tag ref (err e) write s = (err e, forget_pending tag s)
  after_write tag ref (ok wire) (err e) s =
      (err e, forget_pending tag (record s { written = s.written ++ wire ∷ [] }))
  after_write tag ref (ok wire) (ok _) s =
      (ok (tag, ref), record s { written = s.written ++ wire ∷ [] })

  module _ (cobs : Cobs) where
    -- _send_and_wait and _send_tx up to `pending.event.wait`: the tag and the reference that the thread
    -- holds while it waits. `write` is what the transport's write does.
    unfoldable pub begin :
        ℕ → Result Bytes → Result (Unit {0}) → Session Float → Result (ℕ × ℕ) × Session Float
    unfolding alloc_tag register_pending after_write
    begin cmd_type payload write s =
        let (tag, s1) = alloc_tag s in
        let (ref, s2) = register_pending tag cmd_type s1 in
        after_write tag ref (payload >>= λ bs. encode_frame cobs (pos cmd_type) (pos tag) bs) write
          s2

    unfoldable pub ping : Result (Unit {0}) → Session Float → Result (ℕ × ℕ) × Session Float
    ping write s = begin type_ping (ok encode_ping_payload) write s

    unfoldable pub get_info : Result (Unit {0}) → Session Float → Result (ℕ × ℕ) × Session Float
    get_info write s = begin type_get_info (ok encode_get_info_payload) write s

    abbrev encoded_first :
        Result Bytes → Result (Unit {0}) → Session Float → Result (ℕ × ℕ) × Session Float
    encoded_first (ok payload) write s = begin type_set_config (ok payload) write s
    encoded_first (err e) write s = (err e, s)

    -- The payload of SET_CONFIG is encoded before a tag is taken.
    unfoldable pub set_config :
        Modulation → Result (Unit {0}) → Session Float → Result (ℕ × ℕ) × Session Float
    set_config modulation write s = encoded_first (encode_set_config_payload modulation) write s

    -- The payload of TX is encoded inside the try block.
    unfoldable pub transmit :
        Bytes → Bool → Result (Unit {0}) → Session Float → Result (ℕ × ℕ) × Session Float
    transmit bs skip_cad write s = begin type_tx (encode_tx_payload bs skip_cad) write s

    unfoldable pub rx_start : Result (Unit {0}) → Session Float → Result (ℕ × ℕ) × Session Float
    rx_start write s = begin type_rx_start (ok encode_rx_start_payload) write s

    unfoldable pub rx_stop : Result (Unit {0}) → Session Float → Result (ℕ × ℕ) × Session Float
    rx_stop write s = begin type_rx_stop (ok encode_rx_stop_payload) write s

-- What the waiting thread returns or raises.
pub data Outcome (A : Type 0) : Type 0 where
  returned : A → Outcome A
  raised : DongloraError → Outcome A

abbrev answer : Bool → Option DongloraError → Option OkPayload → Outcome (Option OkPayload)
answer false e payload = raised timeout_error
answer true (some e) payload = raised e
answer true none payload = returned payload

abbrev tx_answer : Bool → Option DongloraError → Option TxDone → Outcome TxDone
tx_answer false e td = raised timeout_error
tx_answer true (some e) td = raised e
tx_answer true none none = raised donglora_error
tx_answer true none (some td) = returned td

-- The end of _send_and_wait from the object that the thread holds.
unfoldable pub outcome : Pending → Outcome (Option OkPayload)
outcome p = answer p.event p.err p.ok_payload

-- The end of _send_tx.
unfoldable pub tx_outcome : Pending → Outcome TxDone
tx_outcome p = tx_answer p.event p.err p.tx_done

abbrev held : Option Pending → (Pending → Outcome (Option OkPayload)) → Outcome (Option OkPayload)
held none f = raised donglora_error
held (some p) f = f p

abbrev tx_held : Option Pending → (Pending → Outcome TxDone) → Outcome TxDone
tx_held none f = raised donglora_error
tx_held (some p) f = f p

module _ {Float : Type 0} where
  -- _send_and_wait behind the wait, its `finally` included.
  unfoldable pub finish : ℕ → ℕ → Session Float → Outcome (Option OkPayload) × Session Float
  unfolding outcome forget_pending
  finish tag ref s = (held (get_elem? s.objects ref) outcome, forget_pending tag s)

  -- _send_tx behind the wait.
  unfoldable pub finish_tx : ℕ → ℕ → Session Float → Outcome TxDone × Session Float
  unfolding tx_outcome forget_pending
  finish_tx tag ref s = (tx_held (get_elem? s.objects ref) tx_outcome, forget_pending tag s)
