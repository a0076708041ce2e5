-- ===== src/Examples/Threads.antt =====
-- Runs of a session's threads, and of the whole reader loop.
use client_py.Prelude.{
  ℕ, ◌≡◌, ◌≢◌, refl, ap, subst, [], ◌∷◌, ◌++◌, List, some, true, get_elem?, map, arith,
}
use client_py.Prelude.Int.{ℤ}
use client_py.Python.Result.{ok}
use client_py.Python.Dict.{lookup}
use client_py.Frame.{Frame, byte, timeout, os_failure}
use client_py.Errors.{donglora_error}
use client_py.Commands.{type_ping, type_tx}
use client_py.Events.Rx.{RxEvent}
use client_py.Session.State.{Session}
use client_py.Session.Send.{finish_tx}
use client_py.Session.Correlation.{fresh}
use client_py.Session.Reader.{reader_exit, close, next_rx, dispatch}
use client_py.Session.Wake.{At, IsAnswered}
use client_py.Session.Threads.{Reach, start, later, begins, dispatches}
use client_py.Session.Threads.{takes}
use client_py.Session.Threads.Dead.{onward, here, dead_times_out}
use client_py.Session.State.{init, dead_sentinel, update_all}
use client_py.Session.Send.{alloc_tag, register_pending, after_write, begin, finish, raised}
use client_py.Python.Dict.{insert, values}
use client_py.Python.Struct.{pack_unsigned, in_unsigned}
use client_py.Frame.{encode_frame}
use client_py.Errors.{timeout_error}
use client_py.Crc.{crc16, crc_from, crc_byte, crc_bits, crc_bit}
use client_py.Examples.Wire.{escape}
use client_py.Session.Threads.Fifo.{queue_of, oldest, rx_refines_fifo}
use client_py.Session.Threads.Answers.{TxEnds, tx_ends, ends_wake_all}
use client_py.Session.Loop.{out_of_fuel, ended, reader_loop}
use client_py.Session.Loop.Runs.{reader_loop_stops}
use client_py.Session.Cases.{packets_of}
use client_py.Events.Rx
use client_py.Python.Enum.{enum_call, find_value}
use client_py.Python.Struct.{is_bit, truth}
use client_py.Mux.{received, mux_read}
use client_py.Mux.Reader.{singly, reader_loop-peer_closed}
use client_py.Examples.Wire.{escapes, ping_bytes}
use client_py.Examples.Payloads.{in_tenths, rx_bytes, rx_event}
use client_py.Examples.Sessions.{sent_first, tx_bytes, tx_sent}

-- A session that has sent a TX, and that has then received a packet.
tx_reached : Reach escapes in_tenths [] [] (sent_first type_tx tx_bytes)
tx_reached =
    subst (Reach escapes in_tenths [] []) (ap (λ r. r.1) tx_sent)
      (later start (begins type_tx (ok (0 ∷ 104 ∷ [])) (ok tt)))

abbrev rx_frame : Frame
rx_frame = record { type_id = 0xc0; tag = 0; payload = rx_bytes }

packet_reached :
    Reach escapes in_tenths
      (packets_of in_tenths rx_frame)
      []
      (dispatch in_tenths rx_frame (sent_first type_tx tx_bytes)).1
packet_reached = later tx_reached (dispatches rx_frame refl)

packet_arrived : packets_of in_tenths rx_frame ≡ rx_event ∷ []
unfolding Rx.decode enum_call find_value is_bit truth
packet_arrived = refl

rx_refines_fifo_example :
    let s = (dispatch in_tenths rx_frame (sent_first type_tx tx_bytes)).1 in
    (es : List (RxEvent ℤ)) × (packets_of in_tenths rx_frame ≡ [] ++ es)
    × (s.rx_queue ≡ queue_of s.reader_dead es)
    × ((next_rx s).0 ≡ oldest es)
rx_refines_fifo_example = rx_refines_fifo escapes in_tenths packet_reached

tx_ends_example : TxEnds (fresh 1 type_tx) (finish_tx 1 0 (sent_first type_tx tx_bytes)).0
tx_ends_example = tx_ends escapes in_tenths tx_reached 1 0 (fresh 1 type_tx) refl refl

tx_registered : lookup {V = ℕ} 1 ((1, 0) ∷ []) ≡ some 0
unfolding lookup
tx_registered = refl

ends_wake_all_example :
    let s : Session ℤ = sent_first type_tx tx_bytes in
    At IsAnswered (get_elem? (reader_exit s).objects 0)
    × ((reader_exit s).pending ≡ [])
    × At (λ p. (p.event ≡ true) × (p.err ≡ some donglora_error)) (get_elem? (close s).objects 0)
    × ((close s).pending ≡ [])
ends_wake_all_example = ends_wake_all escapes in_tenths tx_reached 1 0 tx_registered

reader_loop_stops_example :
    reader_loop escapes in_tenths 4
      (byte 7 ∷ timeout ∷ os_failure ∷ [])
      (sent_first type_ping ping_bytes)
    ≢ out_of_fuel
reader_loop_stops_example =
    reader_loop_stops escapes in_tenths 4 (byte 7 ∷ timeout ∷ os_failure ∷ [])
      (sent_first type_ping ping_bytes) (omega arith)

reader_loop-peer_closed_example :
    reader_loop escapes in_tenths 1
      (map mux_read (singly (2 ∷ 9 ∷ []) ++ received [] ∷ []))
      (sent_first type_ping ping_bytes)
    ≡ ended [] (reader_exit (sent_first type_ping ping_bytes))
reader_loop-peer_closed_example =
    reader_loop-peer_closed escapes in_tenths 0 (2 ∷ 9 ∷ []) [] (sent_first type_ping ping_bytes)
      (omega arith, (omega arith, tt)) refl

-- A new session whose reader thread has ended, and then a PING.
abbrev dead_sent : Session ℤ
dead_sent = record (sent_first type_ping ping_bytes) {
  rx_queue = dead_sentinel ∷ [];
  reader_dead = true;
}

ping_sent_dead : begin escapes type_ping (ok []) (ok tt) (reader_exit init) ≡ (ok (1, 0), dead_sent)
unfolding begin alloc_tag register_pending insert after_write reader_exit values update_all
    encode_frame pack_unsigned in_unsigned escape crc16 crc_from crc_byte crc_bits crc_bit
ping_sent_dead = refl

-- A new session whose reader thread has ended, and then a TX.
abbrev dead_tx_sent : Session ℤ
dead_tx_sent = record (sent_first type_tx tx_bytes) {
  rx_queue = dead_sentinel ∷ [];
  reader_dead = true;
}

tx_sent_dead :
    begin escapes type_tx (ok (0 ∷ 104 ∷ [])) (ok tt) (reader_exit init) ≡ (ok (1, 0), dead_tx_sent)
unfolding begin alloc_tag register_pending insert after_write reader_exit values update_all
    encode_frame pack_unsigned in_unsigned escape crc16 crc_from crc_byte crc_bits crc_bit
tx_sent_dead = refl

dead_times_out_example :
    ((finish 1 0 (next_rx dead_tx_sent).1).0 ≡ raised timeout_error)
    × ((finish_tx 1 0 (next_rx dead_tx_sent).1).0 ≡ raised timeout_error)
unfolding reader_exit
dead_times_out_example =
    dead_times_out escapes in_tenths type_tx 1 0 (ok (0 ∷ 104 ∷ [])) (ok tt) (reader_exit init)
      dead_tx_sent (next_rx dead_tx_sent).1 refl tx_sent_dead (onward takes refl here)
