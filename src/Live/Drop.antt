-- ===== src/Live/Drop.antt =====
-- A transport that drops while a command waits.
use client_py.Prelude.{
  Bool, ℕ, suc, ◌≡◌, refl, ap, true, false, some, List, [], ◌∷◌, ◌++◌, map, All, length, ==_ne,
  get_elem?, get_elem?-set_self, get_elem?-lt, get_elem?-append_length,
}
use client_py.Prelude.Int.{pos}
use client_py.Python.Result.{ok, err, os_error}
use client_py.Python.Struct.{Bytes}
use client_py.Python.Float.{Floats}
use client_py.Python.Dict.{insert_nil, values_only}
use client_py.Frame.{Cobs, Frame, Read, byte, os_failure, encode_frame, read_frame, read_loop}
use client_py.Frame.Stream.{NonZero}
use client_py.Errors.{donglora_error}
use client_py.Commands.{type_tx, encode_tx_payload}
use client_py.Session.State.{Session, Pending, update, update_all}
use client_py.Session.Send.{following_tag, forget_pending, finish_tx, tx_outcome}
use client_py.Session.Send
use client_py.Session.Reader.{reader_round, reader_exit, wake_dead}
use client_py.Session.Correlation.{fresh}
use client_py.Session.Loop.{reader_loop, ended}
use client_py.Dongle.{raised}
use client_py.Live.{Device, System, ended_of, send, send_tx, reader_runs}
use client_py.Live.Quiet.{Quiet, sent_session}
use client_py.Live.Reads.{begin_sent}

module _ (cobs : Cobs) {D : Type 0} (device : Device D) where
  -- At `d` the device gets this frame, and the transport gives a part of a frame and then fails.
  pub record Drops (frame : Frame) (d d' : D) : Type 0 where
    pub wire : Bytes
    pub part : Bytes
    pub encoded : encode_frame cobs (pos frame.type_id) (pos frame.tag) frame.payload ≡ ok wire
    pub in_frame : All NonZero part
    pub received : device.receive wire d ≡ (ok tt, map byte part ++ os_failure ∷ [], d')

module _ (cobs : Cobs) where
  read_loop-os_failure :
      (buf part : Bytes) (rest : List Read)
      → All NonZero part
      → read_loop cobs buf (map byte part ++ os_failure ∷ rest) ≡ some (err os_error, rest)
  unfolding read_loop
  read_loop-os_failure buf [] rest h = refl
  read_loop-os_failure buf (b ∷ part) rest h =
      rw (==_ne b 0 h.0) (read_loop-os_failure (buf ++ b ∷ []) part rest h.1)

  module _ (fl : Floats) {D : Type 0} (device : Device D) where
    loop_drops :
        (fuel : ℕ) (part : Bytes) (s : Session fl.Float)
        → All NonZero part
        → s.closed ≡ false
        → reader_loop cobs fl (suc fuel) (map byte part ++ os_failure ∷ []) s
          ≡ ended [] (reader_exit s)
    unfolding reader_loop reader_round read_frame
    loop_drops fuel part s h is_open = rw (is_open, read_loop-os_failure [] part [] h) refl

    pub runs_out :
        (part : Bytes) (s : Session fl.Float) (d : D)
        → All NonZero part
        → s.closed ≡ false
        → s.reader_dead ≡ false
        → reader_runs cobs fl device
            (map byte part ++ os_failure ∷ [])
            (record { session = s; unread = []; device = d })
          ≡ record { session = reader_exit s; unread = []; device = d }
    unfolding reader_runs
    runs_out part s d h is_open alive = rw (loop_drops _ part s h is_open, alive) refl

update-get_elem? :
    (objects : List Pending) (ref : ℕ) (p : Pending) (f : Pending → Pending)
    → get_elem? objects ref ≡ some p
    → get_elem? (update_all objects (ref ∷ []) f) ref ≡ some (f p)
unfolding update_all update
update-get_elem? objects ref p f h =
    rw h (get_elem?-set_self objects ref (f p) (get_elem?-lt objects ref p h))

woken_fresh :
    (tag cmd_type : ℕ) → tx_outcome (wake_dead (fresh tag cmd_type)) ≡ Send.raised donglora_error
unfolding tx_outcome wake_dead
woken_fresh tag cmd_type = refl

finish_tx_woken :
    {Float : Type 0} (s : Session Float) (tag ref cmd_type : ℕ)
    → s.pending ≡ (tag, ref) ∷ []
    → get_elem? s.objects ref ≡ some (fresh tag cmd_type)
    → finish_tx tag ref (reader_exit s)
      ≡ (Send.raised donglora_error, forget_pending tag (reader_exit s))
unfolding finish_tx reader_exit forget_pending
finish_tx_woken s tag ref cmd_type only stored =
    let woken = update-get_elem? s.objects ref (fresh tag cmd_type) wake_dead stored in
    rw (only, values_only tag ref, woken, woken_fresh tag cmd_type) refl

module _ (cobs : Cobs) (fl : Floats) {D : Type 0} (device : Device D) where
  -- A TX whose transport drops raises the error that the end of the reader thread sets, and leaves
  -- a dead session.
  pub send_tx-Drops :
      (w : System fl.Float D) (bs payload : Bytes) (skip_cad : Bool) (d' : D)
      → Quiet w
      → encode_tx_payload bs skip_cad ≡ ok payload
      → Drops cobs device
          (record { type_id = type_tx; tag = w.session.next_tag; payload = payload })
          w.device
          d'
      → (w' : System fl.Float D) × (send_tx cobs fl device bs skip_cad w
          ≡ (raised donglora_error, w'))
        × (w'.session.reader_dead ≡ true)
        × (w'.device ≡ d')
  unfolding send_tx
  send_tx-Drops w bs payload skip_cad d' q e r =
      let tag = w.session.next_tag in
      let ref = length w.session.objects in
      let s = sent_session type_tx r.wire w.session in
      let sent : send cobs fl device type_tx (encode_tx_payload bs skip_cad) w
          ≡ (ok (tag, ref), record { session = reader_exit s; unread = []; device = d' }) =
        unfold send in
        rw
          (
            e,
            r.encoded,
            r.received,
            begin_sent cobs type_tx payload r.wire w.session r.encoded,
            q.nothing_unread,
          )
          (ap (λ v. (ok (tag, ref), v))
            (runs_out cobs fl device r.part s d' r.in_frame q.is_open q.reads_on)) in
      (
        record { session = forget_pending tag (reader_exit s); unread = []; device = d' },
        rw sent (
            ap (λ o. (ended_of o.0, record { session = o.1; unread = []; device = d' }))
              (finish_tx_woken s tag ref type_tx (rw q.idle (insert_nil tag ref))
                (get_elem?-append_length w.session.objects _ []))),
        unfold forget_pending reader_exit in refl,
        refl,
      )
