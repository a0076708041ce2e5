-- ===== src/Live/Reads.antt =====
-- The reader thread over what a device gives for one command.
use client_py.Prelude.{
  ℕ, suc, ◌+◌, ◌-◌, ◌≤◌, ◌≡◌, refl, ◌∙◌, ap, sym, false, List, [], ◌∷◌, map, length, arith,
  length-append, append-nil,
}
use client_py.Prelude.Int.{pos}
use client_py.Python.Result.{ok, ok_injective}
use client_py.Python.Struct.{Bytes}
use client_py.Python.Float.{Floats}
use client_py.Frame.{Cobs, IsCobs, Frame, byte, encode_frame, read_frame, read_loop}
use client_py.Frame.RoundTrip.{decode_frame-encode_frame}
use client_py.Frame.Stream.Replay.{Recorded, nothing, frame_first}
use client_py.Session.State.{Session}
use client_py.Session.Send.{alloc_tag, register_pending, after_write, begin}
use client_py.Session.Reader.{reader_round}
use client_py.Session.Loop.{reader_loop, reading}
use client_py.Session.Loop.Runs.{dispatch_all, reader_loop-Recorded}
use client_py.Live.Quiet.{sent_session, dispatch_all-Same}

length-bytes : (bs : Bytes) → length (map byte bs) ≡ length bs
length-bytes [] = refl
length-bytes (b ∷ bs) = omega (arith, length-bytes bs)

module _ (cobs : Cobs) where
  Recorded-length :
      {fs : List Frame} {wires : Bytes}
      → IsCobs cobs
      → Recorded cobs fs wires
      → length fs ≤ length wires
  Recorded-length laws nothing = omega arith
  Recorded-length laws (frame_first f {fs} wire wires fits e later) =
      let (inner, e', nz, ne, d) = decode_frame-encode_frame cobs f laws fits in
      let size : length wire ≡ length inner + 1 =
        ap length (ok_injective _ _ (sym e ∙ e')) ∙ length-append inner (0 ∷ []) in
      omega (arith, size, length-append wire wires, Recorded-length laws later)

  pub begin_sent :
      {Float : Type 0} (cmd_type : ℕ) (payload wire : Bytes) (s : Session Float)
      → encode_frame cobs (pos cmd_type) (pos s.next_tag) payload ≡ ok wire
      → begin cobs cmd_type (ok payload) (ok tt) s
        ≡ (ok (s.next_tag, length s.objects), sent_session cmd_type wire s)
  unfolding begin alloc_tag register_pending after_write
  begin_sent cmd_type payload wire s e = rw e refl

  module _ (fl : Floats) where
    loop_idle :
        (fuel : ℕ) (s : Session fl.Float)
        → s.closed ≡ false
        → reader_loop cobs fl (suc fuel) [] s ≡ reading [] s
    unfolding reader_loop reader_round read_frame read_loop
    loop_idle fuel s is_open = rw is_open refl

    -- The reader thread handles the frames of a recording, and waits for the next read.
    pub loop_handles :
        {fs : List Frame} {wires : Bytes} (s : Session fl.Float)
        → IsCobs cobs
        → Recorded cobs fs wires
        → s.closed ≡ false
        → reader_loop cobs fl (suc (length (map byte wires))) (map byte wires) s
          ≡ reading [] (dispatch_all fl fs s)
    loop_handles {fs} {wires} s laws recorded is_open =
        let short = Recorded-length laws recorded in
        let spare = length wires - length fs in
        let fuel : suc (length (map byte wires)) ≡ length fs + suc spare =
          omega (arith, short, length-bytes wires) in
        rw fuel (
          ap (λ l. reader_loop cobs fl (length fs + suc spare) l s)
            (sym (append-nil (map byte wires)))
          ∙ reader_loop-Recorded cobs fl (suc spare) [] s laws recorded is_open
          ∙ loop_idle spare (dispatch_all fl fs s) ((dispatch_all-Same fl fs s).closed ∙ is_open))
