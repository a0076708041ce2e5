-- ===== src/Session/Correlation.antt =====
-- Requests and responses: a frame reaches the command that waits on its tag, and no other.
use client_py.Prelude.{
  get_elem?-lt, ℕ, ◌≡◌, ◌≢◌, refl, ap, ◌∙◌, false, Option, none, some, [], ==_refl, ==_ne, arith,
  get_elem?, set, length, get_elem?-append_length, get_elem?-set_self, get_elem?-set_ne,
}
use client_py.Python.Result.{Result, ok, err}
use client_py.Python.Struct.{Bytes}
use client_py.Python.Float.{Floats}
use client_py.Python.Dict.{lookup, lookup-insert}
use client_py.Frame.{Cobs, Frame}
use client_py.Errors.{CodeOrInt}
use client_py.Events.{decode_err_payload}
use client_py.Session.Cases.{dispatch_cases}
use client_py.Session.State.{Session, Pending}
use client_py.Session.Response.{handle_response}
use client_py.Session.Send.{
  alloc_tag, register_pending, after_write, begin, finish, finish_tx, outcome, tx_outcome,
}
use client_py.Session.Reader.{dispatch, correlate, respond_to, on_rx, on_async_err}
use client_py.Events.Rx
use client_py.Events.Rx.{RxEvent}

module _ {Float : Type 0} where
  -- A command waits: its tag maps to `ref`, and the object there is `p`.
  pub record Awaits (s : Session Float) (tag ref : ℕ) (p : Pending) : Type 0 where
    pub registered : lookup tag s.pending ≡ some ref
    pub stored : get_elem? s.objects ref ≡ some p

-- The slot of a new command.
abbrev pub fresh : ℕ → ℕ → Pending
fresh tag cmd_type = record {
  tag = tag;
  cmd_type = cmd_type;
  event = false;
  ok_payload = none;
  err = none;
  tx_done = none;
}

module _ {Float : Type 0} where
  after_write_ok :
      (tag ref tag' ref' : ℕ) (wire : Result Bytes) (write : Result (Unit {0}))
      (s s' : Session Float)
      → after_write tag ref wire write s ≡ (ok (tag', ref'), s')
      → (tag' ≡ tag) × (ref' ≡ ref) × (s'.objects ≡ s.objects) × (s'.pending ≡ s.pending)
  unfolding after_write
  after_write_ok tag ref tag' ref' (ok wire) (ok w) s s' h = ground arith
  after_write_ok tag ref tag' ref' (ok wire) (err e) s s' h = ground arith
  after_write_ok tag ref tag' ref' (err e) write s s' h = ground arith

  -- A command that was sent waits with a fresh slot under the tag that it took.
  pub begin-Awaits :
      (cobs : Cobs) (cmd_type tag ref : ℕ) (payload : Result Bytes) (write : Result (Unit {0}))
      (s s' : Session Float)
      → begin cobs cmd_type payload write s ≡ (ok (tag, ref), s')
      → Awaits s' tag ref (fresh tag cmd_type) × (tag ≡ s.next_tag)
  unfolding begin alloc_tag register_pending
  begin-Awaits cobs cmd_type tag ref payload write s s' h =
      let (same_tag, same_ref, objects, pending) =
        after_write_ok s.next_tag (length s.objects) tag ref _ write _ s' h in
      (
        record {
          registered =
              rw (pending, same_tag, same_ref)
                (lookup-insert s.next_tag s.next_tag (length s.objects) s.pending
                  ∙ rw (==_refl s.next_tag));
          stored =
              rw (objects, same_tag, same_ref)
                (get_elem?-append_length s.objects (fresh s.next_tag cmd_type) []);
        },
        same_tag,
      )

  pub finish-Awaits :
      (s : Session Float) (tag ref : ℕ) (p : Pending)
      → Awaits s tag ref p
      → (finish tag ref s).0 ≡ outcome p
  unfolding finish
  finish-Awaits s tag ref p h = rw h.stored

  pub finish_tx-Awaits :
      (s : Session Float) (tag ref : ℕ) (p : Pending)
      → Awaits s tag ref p
      → (finish_tx tag ref s).0 ≡ tx_outcome p
  unfolding finish_tx
  finish_tx-Awaits s tag ref p h = rw h.stored

module _ (fl : Floats) (s : Session fl.Float) (frame : Frame) where
  pub dispatch-Awaits :
      (tag ref : ℕ) (p : Pending)
      → Awaits s tag ref p
      → frame.tag ≡ tag
      → tag ≢ 0
      → Awaits (dispatch fl frame s).1 tag ref (handle_response p frame).1
  unfolding dispatch
  dispatch-Awaits tag ref p h e ne =
      let reached : (dispatch fl frame s).1
          ≡ record s { objects = set s.objects ref (handle_response p frame).1 } =
        unfold dispatch in rw (e, ==_ne tag 0 ne, h.registered, h.stored) in
      rw reached (record {
        registered = h.registered;
        stored = get_elem?-set_self s.objects ref _ (get_elem?-lt s.objects ref p h.stored);
      })

module _ {Float : Type 0} where
  -- The object `k`, the registrations, the tag counter and what was written are the same.
  abbrev pub SameBut : ℕ → Session Float → Session Float → Type 0
  SameBut k s s' =
      (get_elem? s'.objects k ≡ get_elem? s.objects k)
      × (s'.pending ≡ s.pending)
      × (s'.next_tag ≡ s.next_tag)
      × (s'.written ≡ s.written)

  respond_to_isolated :
      (s : Session Float) (ref k : ℕ) (o : Option Pending) (frame : Frame)
      → ref ≢ k
      → SameBut k s (respond_to s ref o frame).1
  respond_to_isolated s ref k none frame ne = (refl, refl, refl, refl)
  respond_to_isolated s ref k (some p) frame ne =
      (get_elem?-set_ne s.objects ref k (handle_response p frame).1 ne, refl, refl, refl)

  correlate_isolated :
      (s : Session Float) (k : ℕ) (o : Option ℕ) (frame : Frame)
      → o ≢ some k
      → SameBut k s (correlate s o frame).1
  correlate_isolated s k none frame ne = (refl, refl, refl, refl)
  correlate_isolated s k (some ref) frame ne =
      respond_to_isolated s ref k (get_elem? s.objects ref) frame (λ e. ne (ap some e))

  on_rx_isolated :
      (s : Session Float) (k : ℕ) (r : Result (RxEvent Float)) → SameBut k s (on_rx s r).1
  unfolding on_rx
  on_rx_isolated s k (ok rx) = (refl, refl, refl, refl)
  on_rx_isolated s k (err e) = ground arith

  on_async_err_isolated :
      (s : Session Float) (k : ℕ) (r : Result CodeOrInt) → SameBut k s (on_async_err s r).1
  unfolding on_async_err
  on_async_err_isolated s k (ok code) = (refl, refl, refl, refl)
  on_async_err_isolated s k (err e) = (refl, refl, refl, refl)

-- A frame changes at most the object that its own tag is registered for; the registrations, the tag
-- counter and what was written stay as they are.
pub dispatch_isolated :
    (fl : Floats) (s : Session fl.Float) (frame : Frame) (k : ℕ)
    → lookup frame.tag s.pending ≢ some k
    → SameBut k s (dispatch fl frame s).1
dispatch_isolated fl s frame k ne =
    dispatch_cases fl frame s (λ es t. SameBut k s t)
      (on_rx_isolated s k (Rx.decode fl frame.payload))
      (on_async_err_isolated s k (decode_err_payload frame.payload)) (refl, refl, refl, refl)
      (correlate_isolated s k (lookup frame.tag s.pending) frame ne)
