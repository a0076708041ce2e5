-- ===== src/Examples/Receive.antt =====
-- Runs of recv, and of many methods, over a live session.
use client_py.Prelude.{ℕ, ◌≡◌, refl, true, false, none, some, [], ◌∷◌, arith}
use client_py.Prelude.Int.{ℤ}
use client_py.Python.Result.{ok}
use client_py.Python.Enum.{enum_call, find_value}
use client_py.Python.Struct.{truth, is_bit}
use client_py.Events.{empty, parse_ok_payload, info}
use client_py.Events.Rx
use client_py.Commands.{type_rx_start, type_get_info}
use client_py.Session.State.{rx_event}
use client_py.Dongle.{Dongle, finished, recv}
use client_py.Dongle.Methods.{
  perform_all, calls_tx, calls_rx, calls_recv, calls_rx_stop, calls_ping, calls_close, keepalive,
  takes_next, calls_set_config,
}
use client_py.Dongle.Methods.Perform.{Holds}
use client_py.Live.{System, services}
use client_py.Live.Quiet.{Quiet, init-Quiet}
use client_py.Live.Tidy.{Tidy}
use client_py.Live.Methods.{perform_all-Tidy}
use client_py.Live.Recovery.{Unplugged, still, back}
use client_py.Live.Receive.{recv_delivers, recv_survives}
use client_py.Examples.Wire.{escapes, escapes-IsCobs}
use client_py.Examples.Payloads
use client_py.Examples.Payloads.{
  in_tenths, default_bytes, default_config, applied, sample_info, info_bytes,
}
use client_py.Examples.Devices.{answers, packet, staged, wires_of, wires_of-Recorded}
use client_py.Examples.Live.{
  dongle_at, one-Accepts, bare, configures, packet-Fits, info_parsed, default_prepared,
  config_payload, info-Fits,
}

abbrev receiving_at : ℕ → Dongle (System ℤ ℕ)
receiving_at stage = record (dongle_at stage) { rx_started = true }

recv_delivers_example :
    (w' : System ℤ ℕ) × (recv (services escapes in_tenths staged true none) 0 (receiving_at 30)
      ≡ some (finished (some Payloads.rx_event), record (receiving_at 30) { world = w' }))
    × Quiet w'
    × (w'.session.rx_queue ≡ rx_event Payloads.rx_event ∷ [])
    × (w'.device ≡ 31)
unfolding Rx.decode enum_call find_value is_bit truth
recv_delivers_example =
    recv_delivers escapes in_tenths staged escapes-IsCobs true none 0 (receiving_at 30)
      (packet ∷ packet ∷ []) (wires_of (packet ∷ packet ∷ [])) 31 refl refl (init-Quiet 30) refl
      refl (wires_of-Recorded (packet ∷ packet ∷ []) (packet-Fits, (packet-Fits, tt)))

receiving-Unplugged : Unplugged staged 1 41 43
receiving-Unplugged = still refl refl refl back

rx_started_parsed : parse_ok_payload type_rx_start [] ≡ ok empty
unfolding parse_ok_payload
rx_started_parsed = refl

recv_survives_example :
    (w' : System ℤ ℕ) × (recv (services escapes in_tenths staged true none) 2 (receiving_at 40)
      ≡ some (
        finished none,
        record (receiving_at 40) {
          info = sample_info;
          applied_config = some default_config;
          world = w';
        },
      ))
    × Quiet w'
    × (w'.device ≡ 47)
recv_survives_example =
    recv_survives escapes in_tenths staged escapes-IsCobs 1 2 (2 ∷ 9 ∷ []) default_bytes
      (receiving_at 40) none sample_info default_config applied empty 41 43 44 45 46 47
      (omega arith) refl refl refl (init-Quiet 40) refl refl (omega arith, (omega arith, tt))
      receiving-Unplugged refl
      (one-Accepts type_get_info 1 [] info_bytes 44 (info sample_info) (bare 2 1 refl refl)
        info-Fits (unfold answers in refl) refl info_parsed)
      refl default_prepared config_payload (configures 45 (unfold answers in refl) refl)
      (one-Accepts type_rx_start 3 [] [] 46 empty (bare 5 3 refl refl) (bare 0x80 3 refl refl)
        (unfold answers in refl) refl rx_started_parsed)

start-Tidy : Tidy (dongle_at 0).world
start-Tidy = record { idle = refl; tagged = omega arith; poisoned = λ dead. cc }

perform_all-Tidy_example : Holds Tidy (
    perform_all
      (services escapes in_tenths staged true none)
      2
      (calls_tx (104 ∷ []) false
        ∷ calls_rx
        ∷ calls_recv
        ∷ calls_rx_stop
        ∷ keepalive false
        ∷ calls_set_config default_config
        ∷ calls_ping
        ∷ takes_next
        ∷ calls_close
        ∷ calls_recv
        ∷ [])
      (dongle_at 0))
perform_all-Tidy_example =
    perform_all-Tidy escapes in_tenths staged true none 2
      (calls_tx (104 ∷ []) false
        ∷ calls_rx
        ∷ calls_recv
        ∷ calls_rx_stop
        ∷ keepalive false
        ∷ calls_set_config default_config
        ∷ calls_ping
        ∷ takes_next
        ∷ calls_close
        ∷ calls_recv
        ∷ [])
      (dongle_at 0) start-Tidy
