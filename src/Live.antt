-- ===== src/Live.antt =====
-- The whole client against a device: the methods of donglora/dongle.py and the opening of
-- donglora/connect.py over the sessions of donglora/session.py and the wire of donglora/frame.py. One
-- thread calls, and the reader thread of its session handles every read of a command before that thread
-- goes on.
pub mod Quiet
pub mod Wait
pub mod Reads
pub mod Answers
pub mod Packets
pub mod Exchange
pub mod Commands
pub mod Tx
pub mod Opening
pub mod Quickstart
pub mod Drop
pub mod Recovery
pub mod Receive
pub mod Sentinel
pub mod Within
pub mod Tidy
pub mod Methods
use client_py.Prelude.{
  ℕ, suc, Bool, true, false, Option, none, some, List, [], ◌∷◌, ◌++◌, length, if◌then◌else◌,
}
use client_py.Prelude.Int.{pos}
use client_py.Python.Result.{Error, Result, ok, err, is_os_error, ◌>>=◌}
use client_py.Python.Struct.{Bytes}
use client_py.Python.Float.{Floats}
use client_py.Frame.{Cobs, Read, encode_frame}
use client_py.Events.{OkPayload, TxDone}
use client_py.Events.Rx.{RxEvent}
use client_py.Commands.{
  type_ping, type_get_info, type_set_config, type_tx, type_rx_start, type_rx_stop,
  encode_ping_payload, encode_get_info_payload, encode_set_config_payload, encode_tx_payload,
  encode_rx_start_payload, encode_rx_stop_payload,
}
use client_py.Modulation.{Modulation}
use client_py.Session.State.{Session, RxItem, init}
use client_py.Session.Send.{Outcome, returned, begin, finish, finish_tx}
use client_py.Session.Send
use client_py.Session.Reader.{reader_exit, next_rx, is_alive, close}
use client_py.Session.Loop.{Loop, ended, reading, out_of_fuel, reader_loop}
use client_py.Dongle.{Ended, finished, raised, crashed, Attempt, opened, failed, broken, Services}
use client_py.Connect.Open.{Link, Up, open_and_init}

-- The device with the way to it. `receive`: what transport.write raises, and what the transport
-- gives to read while the command waits; `listen`: what it gives while next_rx waits; `hang_up`:
-- transport.close; `open_transport`: _open_transport; `pause`: `_keepalive_stop.wait(backoff)`.
pub record Device (D : Type 0) : Type 0 where
  pub receive : Bytes → D → Result (Unit {0}) × List Read × D
  pub listen : D → List Read × D
  pub hang_up : D → D
  pub open_transport : D → Ended (Unit {0}) × D
  pub pause : D → Bool × D

-- The session of the dongle, what its transport gave and its reader thread has not handled yet, and the
-- device.
pub record System (Float D : Type 0) : Type 0 where
  pub session : Session Float
  pub unread : List Read
  pub device : D

abbrev pub ended_of : {A : Type 0} → Outcome A → Ended A
ended_of (returned a) = finished a
ended_of (Send.raised e) = raised e

abbrev pub settle : {Float D : Type 0} → System Float D → Loop Float → System Float D
settle w (ended reads s) = record w { session = s; unread = reads }
settle w (reading reads s) = record w { session = s; unread = reads }
settle w out_of_fuel = w

-- The end of a call whose value is not used.
abbrev pub done : {A W : Type 0} → Ended A × W → Ended (Unit {0}) × W
done (finished a, w) = (finished tt, w)
done (raised e, w) = (raised e, w)
done (crashed e, w) = (crashed e, w)

-- Behind the wait for the event: `k` is the end of _send_and_wait or of _send_tx.
abbrev pub behind_wait :
    {Float D A : Type 0}
    → (ℕ → ℕ → Session Float → Outcome A × Session Float)
    → Result (ℕ × ℕ) × System Float D
    → Ended A × System Float D
behind_wait k (err e, w) = (crashed e, w)
behind_wait k (ok (tag, ref), w) =
    let (o, s) = k tag ref w.session in (ended_of o, record w { session = s })

module _ (cobs : Cobs) (fl : Floats) {D : Type 0} (device : Device D) where
  abbrev pub World : Type 0
  World = System fl.Float D

  -- The reader thread on everything that the transport has given.
  unfoldable pub reader_runs : List Read → World → World
  reader_runs reads w =
      let all = w.unread ++ reads in
      if w.session.reader_dead
      then record w { unread = all }
      else settle w (reader_loop cobs fl (suc (length all)) all w.session)

  -- transport.write, unless the frame could not be encoded.
  abbrev pub deliver : Result Bytes → D → Result (Unit {0}) × List Read × D
  deliver (err e) d = (ok tt, [], d)
  deliver (ok wire) d = device.receive wire d

  -- A command up to its wait, and what the reader thread does meanwhile.
  unfoldable pub send : ℕ → Result Bytes → World → Result (ℕ × ℕ) × World
  send cmd_type payload w =
      let tag = w.session.next_tag in
      let (write, reads, d) =
        deliver (payload >>= λ bs. encode_frame cobs (pos cmd_type) (pos tag) bs) w.device in
      let (r, s) = begin cobs cmd_type payload write w.session in
      (r, reader_runs reads (record w { session = s; device = d }))

  -- _send_and_wait
  unfoldable pub send_and_wait : ℕ → Result Bytes → World → Ended (Option OkPayload) × World
  send_and_wait cmd_type payload w = behind_wait finish (send cmd_type payload w)

  -- _send_tx
  unfoldable pub send_tx : Bytes → Bool → World → Ended TxDone × World
  send_tx bs skip_cad w = behind_wait finish_tx (send type_tx (encode_tx_payload bs skip_cad) w)

  abbrev pub encoded_first : Result Bytes → World → Ended (Option OkPayload) × World
  encoded_first (ok payload) w = send_and_wait type_set_config (ok payload) w
  encoded_first (err e) w = (crashed e, w)

  -- Session.set_config: the payload is encoded before the command begins.
  unfoldable pub set_config : Modulation → World → Ended (Option OkPayload) × World
  set_config config w = encoded_first (encode_set_config_payload config) w

  -- Session.close, and the reader thread leaving its loop over the closed transport.
  unfoldable pub close_session : World → World
  close_session w =
      let s = close w.session in
      record w {
        session = if s.reader_dead then s else reader_exit s;
        device = device.hang_up w.device;
      }

  abbrev pub take : World → Option (RxEvent fl.Float) × World
  take w = let (pkt, s) = next_rx w.session in (pkt, record w { session = s })

  -- Session.next_rx, which waits only on an empty queue.
  abbrev pub take_from : List (RxItem fl.Float) → World → Option (RxEvent fl.Float) × World
  take_from [] w =
      let (reads, d) = device.listen w.device in take (reader_runs reads (record w { device = d }))
  take_from (item ∷ items) w = take w

  abbrev pub with_new : World → Ended (Unit {0}) × D → Ended (Unit {0}) × World
  with_new w (finished r, d) = (finished tt, record { session = init; unread = []; device = d })
  with_new w (raised e, d) = (raised e, record w { device = d })
  with_new w (crashed e, d) = (crashed e, record w { device = d })

  -- What _open_and_init calls: the transport is opened and a Session is made on it, with its reader.
  abbrev pub link : Link World
  link = record {
    open_session = λ w. with_new w (device.open_transport w.device);
    get_info = λ w. send_and_wait type_get_info (ok encode_get_info_payload) w;
    set_config = set_config;
    close_session = close_session;
  }

  -- The reopener's end as _recover_session_locked sees it: where it raises, the dongle keeps its
  -- session.
  abbrev pub attempt_of : World → Ended Up × World → Attempt × World
  attempt_of w (finished (i, applied), w1) = (opened i applied, w1)
  attempt_of w (raised e, w1) = (failed, record w { device = w1.device })
  attempt_of w (crashed e, w1) =
      if is_os_error e
      then (failed, record w { device = w1.device })
      else (broken e, record w { device = w1.device })

  -- What a Dongle calls, for the reopener that connect() has made.
  abbrev pub services : Bool → Option Modulation → Services World (RxEvent fl.Float)
  services auto_configure config = record {
    is_alive = λ w. is_alive w.session;
    transmit = send_tx;
    send_config = λ m w. done (set_config m w);
    send_rx_start = λ w. done (send_and_wait type_rx_start (ok encode_rx_start_payload) w);
    send_rx_stop = λ w. done (send_and_wait type_rx_stop (ok encode_rx_stop_payload) w);
    send_ping = λ w. done (send_and_wait type_ping (ok encode_ping_payload) w);
    next_rx = λ w. take_from w.session.rx_queue w;
    close_session = close_session;
    reopen = λ w. attempt_of w (open_and_init link auto_configure config w);
    wait = λ w. let (stop, d) = device.pause w.device in (stop, record w { device = d });
  }
