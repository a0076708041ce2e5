-- ===== src/Examples/Devices.antt =====
-- A device whose state is a stage, told in `answers`: what it answers to the next command.
use client_py.Prelude.{ℕ, ◌+◌, ◌≡◌, refl, false, List, [], ◌∷◌, ◌++◌, ◌==◌, if◌then◌else◌, map, All}
use client_py.Python.Result.{ok, os_error}
use client_py.Python.Struct.{Bytes}
use client_py.Frame.{Frame, Read, byte, os_failure}
use client_py.Frame.RoundTrip.{Fits, sealed_body, encode_frame-Fits}
use client_py.Frame.Stream.Replay.{Recorded, nothing, frame_first}
use client_py.Dongle.{finished, crashed}
use client_py.Live.{Device}
use client_py.Live.Wait.{own}
use client_py.Live.Answers.{Replies}
use client_py.Examples.Wire.{escapes}
use client_py.Examples.Payloads.{default_bytes, info_bytes, rx_bytes}

abbrev pub frame : ℕ → ℕ → Bytes → Frame
frame type_id tag payload = record { type_id = type_id; tag = tag; payload = payload }

abbrev pub ok_to : ℕ → Bytes → Frame
ok_to tag payload = frame 0x80 tag payload

abbrev pub tx_done_to : ℕ → Frame
tx_done_to tag = frame 0xc1 tag (0 ∷ 0 ∷ 161 ∷ 0 ∷ 0 ∷ [])

abbrev pub unconfigured_to : ℕ → Frame
unconfigured_to tag = frame 0x81 tag (3 ∷ 0 ∷ [])

abbrev pub packet : Frame
packet = frame 0xc0 0 rx_bytes

-- At stage 0 it transmits, and a packet arrives before the TX_DONE. At stages 10 to 12 it has
-- forgotten its configuration, gets it again, and transmits. At stage 20 the transport drops; from
-- stage 24 on it is connected again, tells its info, gets a configuration, and transmits. At stage
-- 30 two packets arrive. At stage 40 the transport drops while nothing is sent; from stage 44 on it
-- is connected again, and RX is started. At stage 50 it answers a PING.
unfoldable pub answers : ℕ → List Frame
answers stage =
    if stage == 0
    then ok_to 1 [] ∷ packet ∷ tx_done_to 1 ∷ []
    else if stage == 10
    then unconfigured_to 1 ∷ []
    else if stage == 11
    then ok_to 2 (0 ∷ 1 ∷ default_bytes) ∷ []
    else if stage == 12
    then ok_to 3 [] ∷ tx_done_to 3 ∷ []
    else if stage == 24
    then ok_to 1 info_bytes ∷ []
    else if stage == 25
    then ok_to 2 (0 ∷ 1 ∷ default_bytes) ∷ []
    else if stage == 26
    then ok_to 3 [] ∷ tx_done_to 3 ∷ []
    else if stage == 44
    then ok_to 1 info_bytes ∷ []
    else if stage == 45
    then ok_to 2 (0 ∷ 1 ∷ default_bytes) ∷ []
    else if stage == 46
    then ok_to 3 [] ∷ []
    else if stage == 50
    then ok_to 1 [] ∷ []
    else []

abbrev wire_of : Frame → Bytes
wire_of f = escapes.encode (sealed_body f) ++ 0 ∷ []

unfoldable pub wires_of : List Frame → Bytes
wires_of [] = []
wires_of (f ∷ fs) = wire_of f ++ wires_of fs

unfoldable pub reads_at : ℕ → List Read
unfolding answers wires_of
reads_at stage =
    if stage == 20 then byte 2 ∷ byte 9 ∷ os_failure ∷ [] else map byte (wires_of (answers stage))

abbrev pub staged : Device ℕ
staged = record {
  receive = λ wire stage. (ok tt, reads_at stage, stage + 1);
  listen = λ stage.
      if stage == 30
      then (map byte (wires_of (packet ∷ packet ∷ [])), 31)
      else if stage == 40
      then (byte 2 ∷ byte 9 ∷ os_failure ∷ [], 41)
      else ([], stage);
  hang_up = λ stage. stage;
  open_transport = λ stage.
      if stage == 21
      then (crashed os_error, 22)
      else if stage == 41
      then (crashed os_error, 42)
      else (finished tt, stage + 1);
  pause = λ stage. (false, stage + 1);
}

pub wires_of-Recorded : (fs : List Frame) → All Fits fs → Recorded escapes fs (wires_of fs)
unfolding wires_of
wires_of-Recorded [] h = nothing
wires_of-Recorded (f ∷ fs) h =
    frame_first f (wire_of f) (wires_of fs) h.0 (encode_frame-Fits escapes f h.0)
      (wires_of-Recorded fs h.1)

-- What the device answers at a stage other than the one where the transport drops.
pub staged-Replies :
    (f : Frame) (stage : ℕ) (replies : List Frame)
    → Fits f
    → All Fits (answers stage)
    → (stage == 20) ≡ false
    → own f.tag (answers stage) ≡ replies
    → Replies escapes staged f stage (answers stage) replies (stage + 1)
unfolding reads_at
staged-Replies f stage replies fits all_fit on mine = record {
  answers = record {
    wire = wire_of f;
    wires = wires_of (answers stage);
    encoded = encode_frame-Fits escapes f fits;
    recorded = wires_of-Recorded (answers stage) all_fit;
    received = rw on refl;
  };
  mine = mine;
}
