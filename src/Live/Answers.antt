-- ===== src/Live/Answers.antt =====
-- What a device answers to one command, and what the command ends in.
use client_py.Prelude.{ℕ, ◌≡◌, List, [], ◌∷◌, map}
use client_py.Prelude.Int.{pos}
use client_py.Python.Result.{ok}
use client_py.Python.Struct.{Bytes}
use client_py.Frame.{Cobs, Frame, byte, encode_frame}
use client_py.Frame.Stream.Replay.{Recorded}
use client_py.Events.{OkPayload, TxDone}
use client_py.Commands.{type_tx}
use client_py.Session.Send.{following_tag}
use client_py.Dongle.{Ended}
use client_py.Events.{type_ok, parse_ok_payload}
use client_py.Live.{Device, System}
use client_py.Live.Quiet.{Quiet}
use client_py.Errors.{CodeOrInt}
use client_py.Events.{
  type_ok, type_err, type_tx_done, parse_ok_payload, decode_err_payload, decode_tx_done,
}
use client_py.Session.State.{RxItem}
use client_py.Live.Wait.{own}

module _ (cobs : Cobs) {D : Type 0} (device : Device D) where
  -- At `d` the device accepts the wire form of the frame, gives the wire forms of `fs` while the
  -- command waits, and is at `d'` behind that.
  pub record Answers (frame : Frame) (d : D) (fs : List Frame) (d' : D) : Type 0 where
    pub wire : Bytes
    pub wires : Bytes
    pub encoded : encode_frame cobs (pos frame.type_id) (pos frame.tag) frame.payload ≡ ok wire
    pub recorded : Recorded cobs fs wires
    pub received : device.receive wire d ≡ (ok tt, map byte wires, d')

module _ (cobs : Cobs) {D : Type 0} (device : Device D) where
  -- The same, where of all that the device gives these frames have the tag of `frame`.
  pub record Replies (frame : Frame) (d : D) (given replies : List Frame) (d' : D) : Type 0 where
    pub answers : Answers cobs device frame d given d'
    pub mine : own frame.tag given ≡ replies

  -- One OK frame with the tag, and its payload parses.
  pub record Accepts (cmd_type tag : ℕ) (payload : Bytes) (d : D) (result : OkPayload) (d' : D)
      : Type 0 where
    pub reply : Frame
    pub given : List Frame
    pub replies :
        Replies
          (record { type_id = cmd_type; tag = tag; payload = payload })
          d
          given
          (reply ∷ [])
          d'
    pub is_ok : reply.type_id ≡ type_ok
    pub parses : parse_ok_payload cmd_type reply.payload ≡ ok result

  -- One ERR frame with the tag, and its payload is this code.
  pub record Refuses (cmd_type tag : ℕ) (payload : Bytes) (d : D) (code : CodeOrInt) (d' : D)
      : Type 0 where
    pub reply : Frame
    pub given : List Frame
    pub replies :
        Replies
          (record { type_id = cmd_type; tag = tag; payload = payload })
          d
          given
          (reply ∷ [])
          d'
    pub is_err : reply.type_id ≡ type_err
    pub decodes : decode_err_payload reply.payload ≡ ok code

  -- To a TX, an OK frame and later a TX_DONE frame with the tag.
  pub record Transmits (tag : ℕ) (payload : Bytes) (d : D) (td : TxDone) (d' : D) : Type 0 where
    pub accepted : Frame
    pub last : Frame
    pub result : OkPayload
    pub given : List Frame
    pub replies :
        Replies
          (record { type_id = type_tx; tag = tag; payload = payload })
          d
          given
          (accepted ∷ last ∷ [])
          d'
    pub is_ok : accepted.type_id ≡ type_ok
    pub parses : parse_ok_payload type_tx accepted.payload ≡ ok result
    pub is_tx_done : last.type_id ≡ type_tx_done
    pub decodes : decode_tx_done last.payload ≡ ok td

-- What a command on a quiet session ends in, and the quiet session behind it.
pub record Ends {Float D A : Type 0} (run : Ended A × System Float D) (e : Ended A) (tag : ℕ)
    (queue : List (RxItem Float)) (d : D) : Type 0 where
  pub world : System Float D
  pub runs : run ≡ (e, world)
  pub quiet : Quiet world
  pub next : world.session.next_tag ≡ following_tag tag
  pub queued : world.session.rx_queue ≡ queue
  pub at : world.device ≡ d
