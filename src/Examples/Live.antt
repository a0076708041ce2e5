-- ===== src/Examples/Live.antt =====
-- Runs of a Dongle over a live session, against the device of Examples/Devices.
use client_py.Prelude.{
  ℕ, ◌≡◌, refl, true, false, none, some, [], ◌∷◌, arith, All, ltb, leb, ltb→lt, leb→le, length,
  ==_refl, ◌==◌, ◌+◌, ◌++◌,
}
use client_py.Prelude.Int.{ℤ}
use client_py.Python.Result.{ok}
use client_py.Python.Struct.{Bytes, IsByte, pack_unsigned, in_unsigned}
use client_py.Python.Enum.{enum_call, find_value}
use client_py.Frame.{Frame, max_payload_field}
use client_py.Frame.RoundTrip.{Fits, sealed_body, encode_frame-Fits}
use client_py.Errors.{named, device_error, from_u16, is_not_configured, specialisation, int_of_code}
use client_py.Errors.Code.{ErrorCode}
use client_py.Events.{OkPayload, empty, info, config_result, parse_ok_payload, decode_err_payload}
use client_py.Info.RoundTrip.{decode-encode_info}
use client_py.Commands.{
  type_tx, type_get_info, type_set_config, encode_tx_payload, encode_set_config_payload,
  tx_flags_as_byte,
}
use client_py.Session.State.{init}
use client_py.Connect.{prepared, prepare_config, prepare_lora, has_bit, clamp_power}
use client_py.Dongle.{Dongle, finished, tx}
use client_py.Live.{System, link, services}
use client_py.Live.Quiet.{Quiet, init-Quiet}
use client_py.Live.Wait.{own}
use client_py.Live.Answers.{Accepts, Refuses, Transmits}
use client_py.Connect.Open.{connect}
use client_py.Live.Opening.{second_tag, third_tag}
use client_py.Live.Quickstart.{connect_then_tx}
use client_py.Live.Tx.{tx-Transmits, tx_reconfigures}
use client_py.Live.Recovery.{tx_survives, Unplugged, still, back}
use client_py.Live.Drop.{Drops}
use client_py.Examples.Wire.{escapes, escapes-IsCobs}
use client_py.Examples.Payloads
use client_py.Python.Struct.{is_bit, truth}
use client_py.Events.Rx
use client_py.Session.State.{rx_event}
use client_py.Examples.Payloads.{
  in_tenths, default_bytes, default_config, default_encoded, applied, applied_decoded, sample_info,
  info_bytes, info_encoded, transmitted, transmitted_decoded,
}
use client_py.Examples.Devices.{
  frame, ok_to, tx_done_to, unconfigured_to, packet, answers, reads_at, staged, staged-Replies,
}

abbrev system_at : ℕ → System ℤ ℕ
system_at stage = record { session = init; unread = []; device = stage }

abbrev pub dongle_at : ℕ → Dongle (System ℤ ℕ)
dongle_at stage = record {
  info = sample_info;
  applied_config = some default_config;
  rx_started = false;
  closed = false;
  has_reopener = true;
  world = system_at stage;
}

tx_payload : encode_tx_payload (104 ∷ []) false ≡ ok (0 ∷ 104 ∷ [])
unfolding encode_tx_payload pack_unsigned in_unsigned tx_flags_as_byte
tx_payload = refl

empty_parsed : parse_ok_payload type_tx [] ≡ ok empty
unfolding parse_ok_payload
empty_parsed = refl

pub info_parsed : parse_ok_payload type_get_info info_bytes ≡ ok (info sample_info)
unfolding parse_ok_payload
info_parsed = rw (decode-encode_info sample_info info_bytes [] info_encoded) refl

applied_parsed :
    parse_ok_payload type_set_config (0 ∷ 1 ∷ default_bytes) ≡ ok (config_result applied)
unfolding parse_ok_payload
applied_parsed = rw applied_decoded refl

unset_decoded : decode_err_payload (3 ∷ 0 ∷ []) ≡ ok (named ErrorCode.enot_configured)
unfolding decode_err_payload from_u16 enum_call find_value
unset_decoded = refl

small :
    (f : Frame)
    → ltb f.type_id 256 ≡ true
    → ltb f.tag 65536 ≡ true
    → leb (length f.payload) max_payload_field ≡ true
    → All IsByte f.payload
    → Fits f
small f t g n bytes = record {
  type_fits = ltb→lt _ _ t;
  tag_fits = ltb→lt _ _ g;
  payload_fits = leb→le _ _ n;
  payload_bytes = bytes;
}

pub packet-Fits : Fits packet
packet-Fits = small packet refl refl refl (ground arith)

pub info-Fits : Fits (ok_to 1 info_bytes)
info-Fits = small (ok_to 1 info_bytes) refl refl refl (ground arith)

pub bare :
    (type_id tag : ℕ) → ltb type_id 256 ≡ true → ltb tag 65536 ≡ true → Fits (frame type_id tag [])
bare type_id tag t g = small (frame type_id tag []) t g refl tt

tx_done-Fits : (tag : ℕ) → ltb tag 65536 ≡ true → Fits (tx_done_to tag)
tx_done-Fits tag g = small (tx_done_to tag) refl g refl (ground arith)

tx-Fits : (tag : ℕ) → ltb tag 65536 ≡ true → Fits (frame type_tx tag (0 ∷ 104 ∷ []))
tx-Fits tag g = small (frame type_tx tag (0 ∷ 104 ∷ [])) refl g refl (ground arith)

abbrev staged_transmits : Transmits escapes staged 1 (0 ∷ 104 ∷ []) 0 transmitted 1
staged_transmits = record {
  accepted = ok_to 1 [];
  last = tx_done_to 1;
  result = empty;
  given = answers 0;
  replies =
      staged-Replies (frame type_tx 1 (0 ∷ 104 ∷ [])) 0 _ (tx-Fits 1 refl)
        (unfold answers in (bare 0x80 1 refl refl, (packet-Fits, (tx_done-Fits 1 refl, tt)))) refl
        (unfold answers own in refl);
  is_ok = refl;
  parses = empty_parsed;
  is_tx_done = refl;
  decodes = transmitted_decoded;
}

third-Transmits :
    (stage : ℕ)
    → answers stage ≡ ok_to 3 [] ∷ tx_done_to 3 ∷ []
    → (stage == 20) ≡ false
    → Transmits escapes staged 3 (0 ∷ 104 ∷ []) stage transmitted (stage + 1)
third-Transmits stage e on = record {
  accepted = ok_to 3 [];
  last = tx_done_to 3;
  result = empty;
  given = answers stage;
  replies =
      staged-Replies (frame type_tx 3 (0 ∷ 104 ∷ [])) stage _ (tx-Fits 3 refl)
        (rw e (bare 0x80 3 refl refl, (tx_done-Fits 3 refl, tt))) on (rw e (unfold own in refl));
  is_ok = refl;
  parses = empty_parsed;
  is_tx_done = refl;
  decodes = transmitted_decoded;
}

-- An OK with a payload.
pub one-Accepts :
    (cmd_type tag : ℕ) (sent payload : Bytes) (stage : ℕ) (result : OkPayload)
    → Fits (frame cmd_type tag sent)
    → Fits (ok_to tag payload)
    → answers stage ≡ ok_to tag payload ∷ []
    → (stage == 20) ≡ false
    → parse_ok_payload cmd_type payload ≡ ok result
    → Accepts escapes staged cmd_type tag sent stage result (stage + 1)
one-Accepts cmd_type tag sent payload stage result fits fits' e on h = record {
  reply = ok_to tag payload;
  given = answers stage;
  replies =
      staged-Replies (frame cmd_type tag sent) stage _ fits (rw e (fits', tt)) on
        (rw e (unfold own in rw (==_refl tag) refl));
  is_ok = refl;
  parses = h;
}

config_sent-Fits : Fits (frame type_set_config 2 default_bytes)
config_sent-Fits = small (frame type_set_config 2 default_bytes) refl refl refl (ground arith)

config_echoed-Fits : Fits (ok_to 2 (0 ∷ 1 ∷ default_bytes))
config_echoed-Fits = small (ok_to 2 (0 ∷ 1 ∷ default_bytes)) refl refl refl (ground arith)

pub configures :
    (stage : ℕ)
    → answers stage ≡ ok_to 2 (0 ∷ 1 ∷ default_bytes) ∷ []
    → (stage == 20) ≡ false
    → Accepts escapes staged type_set_config 2 default_bytes stage
        (config_result applied)
        (stage + 1)
configures stage e on =
    one-Accepts type_set_config 2 default_bytes (0 ∷ 1 ∷ default_bytes) stage
      (config_result applied) config_sent-Fits config_echoed-Fits e on applied_parsed

pub config_payload : encode_set_config_payload default_config ≡ ok default_bytes
unfolding encode_set_config_payload
config_payload = default_encoded

tx-Transmits_example :
    (w' : System ℤ ℕ) × (tx
        (services escapes in_tenths staged true none)
        0
        (104 ∷ [])
        false
        (dongle_at 0)
      ≡ some (finished transmitted, record (dongle_at 0) { world = w' }))
    × Quiet w'
    × (w'.session.rx_queue ≡ rx_event Payloads.rx_event ∷ [])
    × (w'.device ≡ 1)
unfolding answers Rx.decode enum_call find_value is_bit truth
tx-Transmits_example =
    tx-Transmits escapes in_tenths staged escapes-IsCobs true none 0 (104 ∷ []) (0 ∷ 104 ∷ []) false
      (dongle_at 0) transmitted 1 refl (init-Quiet 0) tx_payload staged_transmits

staged-Refuses :
    Refuses escapes staged type_tx 1 (0 ∷ 104 ∷ []) 10 (named ErrorCode.enot_configured) 11
staged-Refuses = record {
  reply = unconfigured_to 1;
  given = answers 10;
  replies =
      staged-Replies (frame type_tx 1 (0 ∷ 104 ∷ [])) 10 _ (tx-Fits 1 refl)
        (unfold answers in (small (unconfigured_to 1) refl refl refl (ground arith), tt)) refl
        (unfold answers own in refl);
  is_err = refl;
  decodes = unset_decoded;
}

unset_is : is_not_configured (device_error (named ErrorCode.enot_configured) 1) ≡ true
unfolding is_not_configured device_error specialisation int_of_code
unset_is = refl

tx_reconfigures_example :
    (w' : System ℤ ℕ) × (tx
        (services escapes in_tenths staged true none)
        0
        (104 ∷ [])
        false
        (dongle_at 10)
      ≡ some (finished transmitted, record (dongle_at 10) { world = w' }))
    × Quiet w'
    × (w'.device ≡ 13)
tx_reconfigures_example =
    tx_reconfigures escapes in_tenths staged escapes-IsCobs true none 0 1 (104 ∷ []) (0 ∷ 104 ∷ [])
      default_bytes false (dongle_at 10) default_config (named ErrorCode.enot_configured)
      (config_result applied) transmitted 11 12 13 refl (init-Quiet 10) refl refl tx_payload
      config_payload unset_is staged-Refuses
      (rw second_tag (configures 11 (unfold answers in refl) refl))
      (rw (second_tag, third_tag) (third-Transmits 12 (unfold answers in refl) refl))

staged-Drops : Drops escapes staged (frame type_tx 1 (0 ∷ 104 ∷ [])) 20 21
unfolding reads_at
staged-Drops = record {
  wire = escapes.encode (sealed_body (frame type_tx 1 (0 ∷ 104 ∷ []))) ++ 0 ∷ [];
  part = 2 ∷ 9 ∷ [];
  encoded = encode_frame-Fits escapes _ (tx-Fits 1 refl);
  in_frame = (omega arith, (omega arith, tt));
  received = refl;
}

staged-Unplugged : Unplugged staged 1 21 23
staged-Unplugged = still refl refl refl back

tells-Accepts : Accepts escapes staged type_get_info 1 [] 24 (info sample_info) 25
tells-Accepts =
    one-Accepts type_get_info 1 [] info_bytes 24 (info sample_info) (bare 2 1 refl refl) info-Fits
      (unfold answers in refl) refl info_parsed

pub default_prepared : prepare_config sample_info default_config ≡ prepared default_config
unfolding prepare_config prepare_lora has_bit clamp_power
default_prepared = refl

connect_then_tx_example :
    (d : Dongle (System ℤ ℕ)) × (w' : System ℤ ℕ) × (connect
        (link escapes in_tenths staged)
        true
        none
        (system_at 23)
      ≡ (finished d, d.world))
    × (d.info ≡ sample_info)
    × (d.applied_config ≡ some default_config)
    × (tx (services escapes in_tenths staged true none) 0 (104 ∷ []) false d
        ≡ some (finished transmitted, record d { world = w' }))
    × Quiet w'
    × (w'.device ≡ 27)
connect_then_tx_example =
    connect_then_tx escapes in_tenths staged escapes-IsCobs none (system_at 23) sample_info
      default_config default_bytes applied 0 (104 ∷ []) (0 ∷ 104 ∷ []) false transmitted 24 25 26 27
      refl tells-Accepts refl default_prepared config_payload
      (configures 25 (unfold answers in refl) refl) tx_payload
      (third-Transmits 26 (unfold answers in refl) refl)

tx_survives_example :
    (w' : System ℤ ℕ) × (tx
        (services escapes in_tenths staged true none)
        2
        (104 ∷ [])
        false
        (dongle_at 20)
      ≡ some (
        finished transmitted,
        record (dongle_at 20) {
          info = sample_info;
          applied_config = some default_config;
          world = w';
        },
      ))
    × Quiet w'
    × (w'.device ≡ 27)
tx_survives_example =
    tx_survives escapes in_tenths staged escapes-IsCobs 1 2 (104 ∷ []) (0 ∷ 104 ∷ []) default_bytes
      false (dongle_at 20) none sample_info default_config applied transmitted 21 23 24 25 26 27
      (omega arith) refl refl refl (init-Quiet 20) tx_payload staged-Drops staged-Unplugged refl
      tells-Accepts refl default_prepared config_payload
      (configures 25 (unfold answers in refl) refl)
      (third-Transmits 26 (unfold answers in refl) refl)
