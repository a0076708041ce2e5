-- ===== src/Examples/Transports.antt =====
-- Runs of discovery.py and of the transports of connect.py on a host whose world is a clock.
use client_py.Prelude.{
  ℕ, ◌+◌, ◌≡◌, ◌⊎◌, refl, [], ◌∷◌, ◌++◌, List, Option, none, some, Bool, true, false, ◌||◌, leb,
  if◌then◌else◌,
}
use client_py.Prelude.Int.{pos}
use client_py.Python.Result.{ok}
use client_py.Python.Text.{
  Text, codes, same, lower, lines_from, split_first, split_last, int_of_text,
}
use client_py.Host.{Host}
use client_py.Discovery.{
  find_port, scan, ports, sorted, insert_sorted, text_leb, is_usb, is_bridge, vid_pid, value_of,
  is_among,
}
use client_py.Discovery.Choice.{IsSteady, chosen, find_port-chosen}
use client_py.Connect.Transport.{
  mux_tcp, Process, default_socket_path, find_mux_socket, tmp_path, socket_in, join, socket_connect,
  address, try_tcp_mux,
}
use client_py.Connect.Transport.Open.{
  open_transport, mux_tcp_connect, Call, calls_connect, calls_mux_tcp_connect, open_for,
}
use client_py.Connect.Dial.{Sessions, perform, perform_all, bring_up_for, on_transport}
use client_py.Connect.Dial.Sticky.{any_mux, stays, perform_all_stays}
use client_py.Connect.{prepare_config, prepare_lora, has_bit, clamp_power}
use client_py.Connect.Open.{session_on, bring_up, check_info, configure}
use client_py.Dongle.{finished}
use client_py.Events.{info, config_result}
use client_py.Examples.Opening.{echo}
use client_py.Examples.Payloads.{sample_info, default_config}
use client_py.Connect.Transport.Paths.{FellBack, find_mux_socket-path, tcp_then_waits}

abbrev runtime_dir : Text
runtime_dir = codes "/run/user/1"

abbrev acm : List Text
acm = codes "/dev/ttyACM1" ∷ codes "/dev/ttyACM0" ∷ []

abbrev usb : List Text
usb = codes "/dev/ttyUSB0" ∷ []

-- The bridge is at /dev/ttyACM0 and the dongle at /dev/ttyUSB0.
abbrev outputs : Text → Option Text
outputs path =
    if same path (codes "/dev/ttyUSB0")
    then some (codes "ID_BUS=usb\nID_VENDOR_ID=1209\nID_MODEL_ID=5741\n")
    else if same path (codes "/dev/ttyACM0")
    then some (codes "ID_VENDOR_ID=10C4\nID_MODEL_ID=EA60\n")
    else none

-- The paths that exist are a parameter; the ports are there from time 2 on.
abbrev clock_host : (Text → ℕ → Bool) → Host ℕ
clock_host exists = record {
  get_env = λ name w. if same name (codes "XDG_RUNTIME_DIR") then some runtime_dir else none;
  path_exists = λ path w. (exists path w, w);
  sleep = λ ms w. w + 1;
  connect_unix = λ path w. (ok tt, w);
  resolve = λ name w. (ok tt, w);
  connect_tcp = λ name port w. (ok tt, w);
  open_serial = λ port w. (ok tt, w);
  glob = λ pattern w.
      (if leb 2 w then (if same pattern (codes "/dev/ttyACM*") then acm else usb) else [], w);
  udevadm = λ path w. (outputs path, w);
}

abbrev no_sockets : Host ℕ
no_sockets = clock_host (λ path w. false)

abbrev socket_path : Text
socket_path = codes "/run/user/1/donglora/mux.sock"

-- The socket under the runtime directory is there from time 3 on, the one under /tmp always.
abbrev two_sockets : Host ℕ
two_sockets = clock_host (λ path w. if same path socket_path then leb 3 w else same path tmp_path)

port_found : find_port no_sockets 2 ≡ (some (codes "/dev/ttyUSB0"), 2)
unfolding find_port scan ports sorted insert_sorted text_leb is_usb is_bridge vid_pid value_of
    is_among same lower lines_from split_first
port_found = refl

address_of_ipv6 : address (codes "::1:5741") ≡ (codes "::1", codes "5741")
unfolding address split_last
address_of_ipv6 = refl

tcp_opened :
    try_tcp_mux no_sockets (codes ":5741") 0
    ≡ (ok (some (mux_tcp (codes "localhost") (pos 5741))), 0)
unfolding try_tcp_mux address split_last int_of_text socket_connect
tcp_opened = refl

steady : IsSteady no_sockets 2 acm usb outputs
unfolding same
steady = record { acm_paths = refl; usb_paths = refl; outputs_are = λ path. refl }

find_port-chosen_example : find_port no_sockets 2 ≡ (chosen outputs (sorted acm ++ sorted usb), 2)
find_port-chosen_example = find_port-chosen no_sockets 2 acm usb outputs steady

abbrev fresh_process : Process ℕ
fresh_process = record { used_mux = false; world = 2 }

abbrev some_calls : List Call
some_calls =
    calls_connect none true none
    ∷ calls_mux_tcp_connect (codes "pi") (pos 5741)
    ∷ calls_connect none true none
    ∷ calls_connect (some (codes "/dev/ttyACM0")) true none
    ∷ []

-- A device that answers and stores what it is sent.
abbrev willing : Sessions ℕ
willing = record {
  start = λ conn w. w;
  get_info = λ conn w. (finished (some (info sample_info)), w);
  set_config = λ conn m w. (finished (some (config_result (echo m))), w);
  close = λ conn w. w;
}

tcp_dialed :
    (perform no_sockets willing 5
      (calls_mux_tcp_connect (codes "pi") (pos 5741))
      fresh_process).ended
    ≡ some (finished (sample_info, some default_config))
unfolding perform open_for mux_tcp_connect socket_connect bring_up_for on_transport session_on
    bring_up check_info configure prepare_config prepare_lora has_bit clamp_power
tcp_dialed = refl

perform_all_stays_example :
    ((perform_all two_sockets willing 5 some_calls fresh_process).1.used_mux
      ≡ (false || any_mux (perform_all two_sockets willing 5 some_calls fresh_process).0))
    × (stays false (perform_all two_sockets willing 5 some_calls fresh_process).0 ≡ true)
perform_all_stays_example = perform_all_stays two_sockets willing 5 some_calls fresh_process

tcp_connected :
    mux_tcp_connect no_sockets (codes "pi") (pos 5741) fresh_process
    ≡ (some (ok (mux_tcp (codes "pi") (pos 5741))), record { used_mux = true; world = 2 })
unfolding mux_tcp_connect socket_connect
tcp_connected = refl

tcp_then_waits_example :
    (open_transport no_sockets 100 none (record { used_mux = true; world = 2 })).0 ≡ none
tcp_then_waits_example =
    tcp_then_waits no_sockets (codes "pi") (pos 5741) fresh_process
      (record { used_mux = true; world = 2 }) (mux_tcp (codes "pi") (pos 5741)) 100 tcp_connected
      (λ n. refl)

tmp_found : find_mux_socket two_sockets 0 ≡ (some tmp_path, 0)
unfolding find_mux_socket socket_in join same
tmp_found = refl

find_mux_socket-path_example :
    (tmp_path ≡ default_socket_path two_sockets 0) ⊎ FellBack two_sockets 0 tmp_path
find_mux_socket-path_example = find_mux_socket-path two_sockets 0 tmp_path 0 tmp_found
