-- ===== src/Live/Opening.antt =====
-- connect() against a device that answers: the transport is opened, GET_INFO and SET_CONFIG are sent.
use client_py.Prelude.{◌≡◌, refl, ◌∙◌, true, Option, some, [], arith}
use client_py.Prelude.Int.{pos}
use client_py.Python.Result.{ok}
use client_py.Python.Struct.{Bytes}
use client_py.Python.Float.{Floats}
use client_py.Frame.{Cobs, IsCobs}
use client_py.Events.{info, config_result, SetConfigResult}
use client_py.Info.{Info}
use client_py.Commands.{type_get_info, type_set_config, encode_set_config_payload}
use client_py.Modulation.{Modulation}
use client_py.Session.State.{init}
use client_py.Session.Send.{following_tag}
use client_py.Dongle.{finished}
use client_py.Connect.{prepared, prepare_config}
use client_py.Connect.Open.{Link, requested, bring_up, check_info, configure, open_and_init}
use client_py.Live.{Device, System, link}
use client_py.Live.Quiet.{Quiet, init-Quiet}
use client_py.Live.Answers.{Accepts}
use client_py.Live.Commands.{send_and_wait-Accepts, set_config-Accepts}

pub second_tag : following_tag 1 ≡ 2
unfolding following_tag
second_tag = refl

pub third_tag : following_tag 2 ≡ 3
unfolding following_tag
third_tag = refl

-- _open_and_init with auto_configure, where every step succeeds and the device echoes its
-- configuration.
open_and_init_echoed :
    {W : Type 0} (link : Link W) (config : Option Modulation) (w w0 w1 w2 : W) (i : Info)
    (m : Modulation) (r : SetConfigResult)
    → link.open_session w ≡ (finished tt, w0)
    → link.get_info w0 ≡ (finished (some (info i)), w1)
    → i.proto_major ≡ pos 1
    → prepare_config i (requested config) ≡ prepared m
    → link.set_config m w1 ≡ (finished (some (config_result r)), w2)
    → open_and_init link true config w ≡ (finished (i, some r.current), w2)
unfolding open_and_init bring_up check_info configure
open_and_init_echoed link config w w0 w1 w2 i m r opens tells v1 prep accepts =
    rw (opens, tells) (simp (v1, prep, accepts))

module _ (cobs : Cobs) (fl : Floats) {D : Type 0} (device : Device D) (laws : IsCobs cobs) where
  -- If the transport can be opened, the device tells its info in version 1 of the protocol,
  -- _prepare_config lets the configuration through, it can be encoded, and the device accepts it
  -- and echoes one, then _open_and_init returns that info and the echoed configuration, over a
  -- session that is quiet and has used two tags.
  pub open_and_init-Accepts :
      (config : Option Modulation) (w : System fl.Float D) (i : Info) (m : Modulation)
      (payload : Bytes) (r : SetConfigResult) (d0 d1 d2 : D)
      → device.open_transport w.device ≡ (finished tt, d0)
      → Accepts cobs device type_get_info 1 [] d0 (info i) d1
      → i.proto_major ≡ pos 1
      → prepare_config i (requested config) ≡ prepared m
      → encode_set_config_payload m ≡ ok payload
      → Accepts cobs device type_set_config 2 payload d1 (config_result r) d2
      → (w' : System fl.Float D) × (open_and_init (link cobs fl device) true config w
          ≡ (finished (i, some r.current), w'))
        × Quiet w'
        × (w'.session.next_tag ≡ 3)
        × (w'.device ≡ d2)
  open_and_init-Accepts config w i m payload r d0 d1 d2 opens tells v1 prep e accepts =
      let start : System fl.Float D = record { session = init; unread = []; device = d0 } in
      let asked =
        send_and_wait-Accepts cobs fl device laws start (init-Quiet d0) 1 d0 d1 refl refl
          type_get_info [] (info i) (omega arith) tells in
      let sent =
        set_config-Accepts cobs fl device laws asked.world asked.quiet 2 d1 d2
          (asked.next ∙ second_tag) asked.at m payload (config_result r) e accepts in
      (
        sent.world,
        open_and_init_echoed (link cobs fl device) config w start asked.world sent.world i m r
            (rw opens refl) asked.runs v1 prep sent.runs,
        sent.quiet,
        sent.next ∙ third_tag,
        sent.at,
      )
