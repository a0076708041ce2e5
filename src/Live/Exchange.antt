-- ===== src/Live/Exchange.antt =====
-- One command of a live client: what is written, what the device answers, and what the caller gets.
use client_py.Prelude.{
  ◌++◌, ℕ, Bool, ◌≡◌, refl, ap, false, some, List, [], map, length, arith, get_elem?,
  get_elem?-append_length,
}
use client_py.Python.Result.{ok}
use client_py.Python.Struct.{Bytes}
use client_py.Python.Float.{Floats}
use client_py.Python.Dict.{insert}
use client_py.Frame.{Cobs, IsCobs, Frame, byte}
use client_py.Frame.Stream.Replay.{Recorded}
use client_py.Commands.{type_tx, encode_tx_payload}
use client_py.Session.State.{Session, Pending}
use client_py.Session.Send.{forget_pending, finish, finish_tx, outcome, tx_outcome, Outcome}
use client_py.Session.Correlation.{fresh}
use client_py.Session.Loop.Runs.{dispatch_all}
use client_py.Live.{
  Device, System, ended_of, reader_runs, send, send_and_wait, send_tx, behind_wait,
}
use client_py.Live.Quiet.{Quiet, sent_session, dispatch_all-Same, answered-Quiet}
use client_py.Live.Wait.{own, handle_all, Waiting, dispatch_all-Waiting}
use client_py.Live.Reads.{begin_sent, loop_handles}
use client_py.Session.State.{rx_event}
use client_py.Live.Packets.{all_packets, dispatch_all-queue}
use client_py.Live.Answers.{Answers, Replies, Ends}

module _ (cobs : Cobs) (fl : Floats) {D : Type 0} (device : Device D) (laws : IsCobs cobs) where
  pub runs_on :
      {fs : List Frame} {wires : Bytes} (s : Session fl.Float) (d : D)
      → Recorded cobs fs wires
      → s.closed ≡ false
      → s.reader_dead ≡ false
      → reader_runs cobs fl device
          (map byte wires)
          (record { session = s; unread = []; device = d })
        ≡ record { session = dispatch_all fl fs s; unread = []; device = d }
  unfolding reader_runs
  runs_on s d recorded is_open alive = rw (loop_handles cobs fl s laws recorded is_open, alive) refl

  module _ (w : System fl.Float D) (q : Quiet w) (cmd_type : ℕ) (payload : Bytes) (fs : List Frame)
      (d' : D)
      (a : Answers cobs device
        (record { type_id = cmd_type; tag = w.session.next_tag; payload = payload })
        w.device
        fs
        d') where
    send_answered : send cobs fl device cmd_type (ok payload) w ≡ (
      ok (w.session.next_tag, length w.session.objects),
      record {
        session = dispatch_all fl fs (sent_session cmd_type a.wire w.session);
        unread = [];
        device = d';
      },
    )
    unfolding send
    send_answered =
        let s = sent_session cmd_type a.wire w.session in
        rw
          (
            a.encoded,
            a.received,
            begin_sent cobs cmd_type payload a.wire w.session a.encoded,
            q.nothing_unread,
          )
          (ap (λ v. (ok (w.session.next_tag, length w.session.objects), v))
            (runs_on s d' a.recorded q.is_open q.reads_on))

    answered_object :
        get_elem?
          (dispatch_all fl fs (sent_session cmd_type a.wire w.session)).objects
          (length w.session.objects)
        ≡ some (handle_all (own w.session.next_tag fs) (fresh w.session.next_tag cmd_type))
    unfolding insert
    answered_object =
        let s = sent_session cmd_type a.wire w.session in
        let h : Waiting s w.session.next_tag (length w.session.objects)
            (fresh w.session.next_tag cmd_type) =
          record {
            only = rw q.idle refl;
            stored = get_elem?-append_length w.session.objects _ [];
          } in
        (dispatch_all-Waiting fl w.session.next_tag (length w.session.objects)
          (omega (arith, q.tagged)) fs s _ h).stored

    -- The end of such a command, `k` behind the wait and `o` on the object.
    wait_answered :
        {A : Type 0} (k : ℕ → ℕ → Session fl.Float → Outcome A × Session fl.Float)
        (o : Pending → Outcome A) (replies : List Frame)
        → ((s : Session fl.Float) (tag ref : ℕ) (p : Pending)
            → get_elem? s.objects ref ≡ some p
            → k tag ref s ≡ (o p, forget_pending tag s))
        → own w.session.next_tag fs ≡ replies
        → Ends
            (behind_wait k (send cobs fl device cmd_type (ok payload) w))
            (ended_of (o (handle_all replies (fresh w.session.next_tag cmd_type))))
            w.session.next_tag
            (w.session.rx_queue ++ map rx_event (all_packets fl fs))
            d'
    wait_answered k o replies ends mine =
        let s = dispatch_all fl fs (sent_session cmd_type a.wire w.session) in
        let tag = w.session.next_tag in
        let end : System fl.Float D = record {
          session = forget_pending tag s;
          unread = [];
          device = d';
        } in
        record {
          world = end;
          runs =
              rw (send_answered, ends s tag (length w.session.objects) _ answered_object)
                (ap (λ gs. (ended_of (o (handle_all gs (fresh tag cmd_type))), end)) mine);
          quiet = answered-Quiet fl w cmd_type a.wire fs d' q;
          next =
              unfold forget_pending in
              (dispatch_all-Same fl fs (sent_session cmd_type a.wire w.session)).next_tag;
          queued =
              unfold forget_pending in
              dispatch_all-queue fl fs (sent_session cmd_type a.wire w.session);
          at = refl;
        }

  module _ (w : System fl.Float D) (q : Quiet w) where
    -- A command other than TX ends as the frames with its tag make it end, in whatever company they
    -- come.
    pub send_and_wait-Replies :
        (cmd_type : ℕ) (payload : Bytes) (given replies : List Frame) (d' : D)
        → Replies cobs device
            (record { type_id = cmd_type; tag = w.session.next_tag; payload = payload })
            w.device
            given
            replies
            d'
        → Ends
            (send_and_wait cobs fl device cmd_type (ok payload) w)
            (ended_of (outcome (handle_all replies (fresh w.session.next_tag cmd_type))))
            w.session.next_tag
            (w.session.rx_queue ++ map rx_event (all_packets fl given))
            d'
    unfolding send_and_wait
    send_and_wait-Replies cmd_type payload given replies d' r =
        wait_answered w q cmd_type payload given d' r.answers finish outcome replies
          (λ s tag ref p at. unfold finish in rw at refl) r.mine

    -- The same of a TX.
    pub send_tx-Replies :
        (bs payload : Bytes) (skip_cad : Bool) (given replies : List Frame) (d' : D)
        → encode_tx_payload bs skip_cad ≡ ok payload
        → Replies cobs device
            (record { type_id = type_tx; tag = w.session.next_tag; payload = payload })
            w.device
            given
            replies
            d'
        → Ends
            (send_tx cobs fl device bs skip_cad w)
            (ended_of (tx_outcome (handle_all replies (fresh w.session.next_tag type_tx))))
            w.session.next_tag
            (w.session.rx_queue ++ map rx_event (all_packets fl given))
            d'
    unfolding send_tx
    send_tx-Replies bs payload skip_cad given replies d' e r = rw e (
        wait_answered w q type_tx payload given d' r.answers finish_tx tx_outcome replies
          (λ s tag ref p at. unfold finish_tx in rw at refl) r.mine)
