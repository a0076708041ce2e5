-- ===== src/Live/Receive.antt =====
-- recv on a live session: packets come in the order of their frames, and a transport that drops is
-- connected again with RX running.
use client_py.Prelude.{
  Bool, ℕ, ◌<◌, ◌≡◌, refl, ◌∙◌, ap, true, false, Option, none, some, List, [], ◌∷◌, ◌++◌, map, All,
  drop, arith,
}
use client_py.Prelude.Int.{pos}
use client_py.Python.Result.{ok}
use client_py.Python.Struct.{Bytes}
use client_py.Python.Float.{Floats}
use client_py.Frame.{Cobs, IsCobs, Frame, Read, byte, os_failure}
use client_py.Frame.Stream.{NonZero}
use client_py.Frame.Stream.Replay.{Recorded}
use client_py.Events.{OkPayload, info, config_result, SetConfigResult}
use client_py.Events.Rx.{RxEvent}
use client_py.Info.{Info}
use client_py.Commands.{type_get_info, type_set_config, type_rx_start, encode_set_config_payload}
use client_py.Modulation.{Modulation}
use client_py.Session.State.{Session, rx_event, dead_sentinel}
use client_py.Session.Reader.{is_alive, next_rx, reader_exit, pop_item}
use client_py.Session.Loop.Runs.{dispatch_all}
use client_py.Dongle.{Services, Dongle, finished, recv, after_next}
use client_py.Dongle.Recovery.{recv_takes, recv_dead, reconnect_resumes}
use client_py.Connect.{prepared, prepare_config}
use client_py.Connect.Open.{requested}
use client_py.Live.{
  Device, System, services, close_session, attempt_of, take, take_from, reader_runs, done,
}
use client_py.Live.Quiet.{Quiet, dispatch_all-Same}
use client_py.Live.Packets.{all_packets, dispatch_all-queue}
use client_py.Live.Answers.{Accepts}
use client_py.Live.Exchange.{runs_on}
use client_py.Live.Commands.{send_and_wait-Accepts}
use client_py.Live.Opening.{open_and_init-Accepts}
use client_py.Live.Tx.{Quiet-alive}
use client_py.Live.Drop.{runs_out}
use client_py.Live.Recovery.{Unplugged, Unplugged-Failures}

abbrev pub first_of : {A : Type 0} → List A → Option A
first_of [] = none
first_of (x ∷ xs) = some x

module _ (fl : Floats) where
  pop_packets :
      (s : Session fl.Float) (es : List (RxEvent fl.Float))
      → s.rx_queue ≡ map rx_event es
      → pop_item s (map rx_event es)
        ≡ (first_of es, record s { rx_queue = map rx_event (drop 1 es) })
  pop_packets s [] h = ap (λ q. (none, record s { rx_queue = q })) h
  pop_packets s (e ∷ es) h = refl

  next_rx-packets :
      (s : Session fl.Float) (es : List (RxEvent fl.Float))
      → s.rx_queue ≡ map rx_event es
      → next_rx s ≡ (first_of es, record s { rx_queue = map rx_event (drop 1 es) })
  unfolding next_rx
  next_rx-packets s es h = ap (pop_item s) h ∙ pop_packets s es h

after_next_alive :
    {W Rx : Type 0} (sv : Services W Rx) (n : ℕ) (d : Dongle W) (w : W) (pkt : Option Rx)
    → sv.is_alive w ≡ true
    → after_next sv n d (pkt, w) ≡ some (finished pkt, record d { world = w })
unfolding after_next
after_next_alive sv n d w none alive = rw alive refl
after_next_alive sv n d w (some pkt) alive = refl

module _ (cobs : Cobs) (fl : Floats) {D : Type 0} (device : Device D) (laws : IsCobs cobs) where
  -- next_rx on an empty queue takes from what the reader thread makes of the reads.
  take_waits :
      (w : System fl.Float D) (reads : List Read) (d' : D)
      → Quiet w
      → w.session.rx_queue ≡ []
      → device.listen w.device ≡ (reads, d')
      → take_from cobs fl device w.session.rx_queue w
        ≡ take cobs fl device (
            reader_runs cobs fl device reads
              (record { session = w.session; unread = []; device = d' }))
  take_waits w reads d' q empty listens =
      ap (λ items. take_from cobs fl device items w) empty
      ∙ ap
          (λ (p : List Read × D).
            take cobs fl device (reader_runs cobs fl device p.0 (record w { device = p.1 })))
          listens
      ∙ ap
          (λ (u : List Read). take cobs fl device (
            reader_runs cobs fl device reads
              (record { session = w.session; unread = u; device = d' })))
          q.nothing_unread

  -- next_rx on an empty queue, where the transport gives the wire forms of frames.
  take_listens :
      (w : System fl.Float D) (fs : List Frame) (wires : Bytes) (d' : D)
      → Quiet w
      → w.session.rx_queue ≡ []
      → device.listen w.device ≡ (map byte wires, d')
      → Recorded cobs fs wires
      → (w' : System fl.Float D) × (take_from cobs fl device w.session.rx_queue w
          ≡ (first_of (all_packets fl fs), w'))
        × Quiet w'
        × (w'.session.rx_queue ≡ map rx_event (drop 1 (all_packets fl fs)))
        × (w'.device ≡ d')
  take_listens w fs wires d' q empty listens recorded =
      let s = dispatch_all fl fs w.session in
      let same = dispatch_all-Same fl fs w.session in
      let es = all_packets fl fs in
      let queued : s.rx_queue ≡ map rx_event es =
        dispatch_all-queue fl fs w.session ∙ ap (λ l. l ++ map rx_event es) empty in
      let runs = runs_on cobs fl device laws w.session d' recorded q.is_open q.reads_on in
      (
        record {
          session = record s { rx_queue = map rx_event (drop 1 es) };
          unread = [];
          device = d';
        },
        take_waits w (map byte wires) d' q empty listens
            ∙ ap (take cobs fl device) runs
            ∙ ap (λ r. (r.0, record { session = r.1; unread = []; device = d' }))
                (next_rx-packets fl s es queued),
        record {
          is_open = same.closed ∙ q.is_open;
          reads_on = same.reader_dead ∙ q.reads_on;
          tagged = rw same.next_tag q.tagged;
          idle = same.pending ∙ q.idle;
          nothing_unread = refl;
        },
        refl,
        refl,
      )

  -- next_rx where the transport drops.
  take_drops :
      (w : System fl.Float D) (part : Bytes) (d' : D)
      → Quiet w
      → w.session.rx_queue ≡ []
      → device.listen w.device ≡ (map byte part ++ os_failure ∷ [], d')
      → All NonZero part
      → (w' : System fl.Float D) × (take_from cobs fl device w.session.rx_queue w ≡ (none, w'))
        × (w'.session.reader_dead ≡ true)
        × (w'.device ≡ d')
  unfolding next_rx
  take_drops w part d' q empty listens in_frame =
      let s = reader_exit w.session in
      let poisoned : s.rx_queue ≡ dead_sentinel ∷ [] =
        unfold reader_exit in ap (λ l. l ++ dead_sentinel ∷ []) empty in
      (
        record { session = record s { rx_queue = dead_sentinel ∷ [] }; unread = []; device = d' },
        take_waits w (map byte part ++ os_failure ∷ []) d' q empty listens
            ∙ ap (take cobs fl device)
                (runs_out cobs fl device part w.session d' in_frame q.is_open q.reads_on)
            ∙ ap
                (λ items. (
                  (pop_item s items).0,
                  record { session = (pop_item s items).1; unread = []; device = d' },
                ))
                poisoned,
        unfold reader_exit in refl,
        refl,
      )

  -- A recv of an open Dongle that is receiving, over a quiet session with an empty queue: if the
  -- transport gives the wire forms of frames while it waits, it returns the first packet among
  -- them, or none if there is none, the other packets stay queued in their order, and the session
  -- is quiet.
  pub recv_delivers :
      (auto_configure : Bool) (config : Option Modulation) (n : ℕ) (d : Dongle (System fl.Float D))
      (fs : List Frame) (wires : Bytes) (d' : D)
      → d.closed ≡ false
      → d.rx_started ≡ true
      → Quiet d.world
      → d.world.session.rx_queue ≡ []
      → device.listen d.world.device ≡ (map byte wires, d')
      → Recorded cobs fs wires
      → (w' : System fl.Float D) × (recv (services cobs fl device auto_configure config) n d
          ≡ some (finished (first_of (all_packets fl fs)), record d { world = w' }))
        × Quiet w'
        × (w'.session.rx_queue ≡ map rx_event (drop 1 (all_packets fl fs)))
        × (w'.device ≡ d')
  recv_delivers auto_configure config n d fs wires d' is_open running q empty listens recorded =
      let sv = services cobs fl device auto_configure config in
      let (w', takes, quiet, queued, at) =
        take_listens d.world fs wires d' q empty listens recorded in
      (
        w',
        recv_takes sv n d is_open running (Quiet-alive d.world q)
            ∙ ap (after_next sv n d) takes
            ∙ after_next_alive sv n d w' (first_of (all_packets fl fs)) (Quiet-alive w' quiet),
        quiet,
        queued,
        at,
      )

  -- With fuel for more than `n` attempts: the transport of an open Dongle that is receiving drops
  -- while recv waits on an empty queue, it cannot be opened `n` times, and then the device is back,
  -- tells its info, and accepts the configuration and RX_START. The recv returns none, and the
  -- Dongle has the new info, the configuration that the device echoed, RX running, and a quiet
  -- session. The Dongle has a reopener, and its session was quiet.
  pub recv_survives :
      (n fuel : ℕ) (part config_payload : Bytes) (d : Dongle (System fl.Float D))
      (config : Option Modulation) (i : Info) (m : Modulation) (r : SetConfigResult)
      (result : OkPayload) (d1 d2 d3 d4 d5 d6 : D)
      → n < fuel
      → d.closed ≡ false
      → d.has_reopener ≡ true
      → d.rx_started ≡ true
      → Quiet d.world
      → d.world.session.rx_queue ≡ []
      → device.listen d.world.device ≡ (map byte part ++ os_failure ∷ [], d1)
      → All NonZero part
      → Unplugged device n (device.hang_up d1) d2
      → device.open_transport d2 ≡ (finished tt, d3)
      → Accepts cobs device type_get_info 1 [] d3 (info i) d4
      → i.proto_major ≡ pos 1
      → prepare_config i (requested config) ≡ prepared m
      → encode_set_config_payload m ≡ ok config_payload
      → Accepts cobs device type_set_config 2 config_payload d4 (config_result r) d5
      → Accepts cobs device type_rx_start 3 [] d5 result d6
      → (w' : System fl.Float D) × (recv (services cobs fl device true config) fuel d
          ≡ some
              (finished none, record d { info = i; applied_config = some r.current; world = w' }))
        × Quiet w'
        × (w'.device ≡ d6)
  unfolding close_session is_alive
  recv_survives n fuel part config_payload d config i m r result d1 d2 d3 d4 d5 d6 enough is_open
        can_reopen running q empty listens in_frame unplugged opens tells v1 prep ec accepts
        starts =
      let sv = services cobs fl device true config in
      let (w1, takes, dead, at1) = take_drops d.world part d1 q empty listens in_frame in
      let w2 : System fl.Float D = record (close_session cobs fl device w1) { device = d2 } in
      let failures =
        Unplugged-Failures cobs fl device true config n (close_session cobs fl device w1)
          (device.hang_up d1) d2 (ap device.hang_up at1) unplugged in
      let (w3, up, q3, tag3, at3) =
        open_and_init-Accepts cobs fl device laws config w2 i m config_payload r d3 d4 d5 opens
          tells v1 prep ec accepts in
      let started =
        send_and_wait-Accepts cobs fl device laws w3 q3 3 d5 d6 tag3 at3 type_rx_start [] result
          (omega arith) starts in
      let back =
        reconnect_resumes sv n fuel (record d { world = w1 }) w2 w3 i (some r.current) enough
          is_open can_reopen (rw dead refl) failures (ap (attempt_of cobs fl device w2) up)
          started.world running (ap done started.runs) in
      (
        started.world,
        recv_dead sv fuel d _ w1 is_open running (Quiet-alive d.world q) takes (rw dead refl) back,
        started.quiet,
        started.at,
      )
