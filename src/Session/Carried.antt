-- ===== src/Session/Carried.antt =====
-- The configuration of a SET_CONFIG on the wire: modulation.py, frame.py and session.py together.
use client_py.Prelude.{ℕ, ◌<◌, ◌∷◌, length, ◌≡◌, ap, some, [], ◌++◌, map, List, arith}
use client_py.Prelude.Int.{pos}
use client_py.Python.Result.{ok}
use client_py.Python.Struct.{Bytes}
use client_py.Frame.{Cobs, IsCobs, Read, byte, encode_frame, read_frame}
use client_py.Frame.RoundTrip.{Fits, encode_frame-Fits}
use client_py.Modulation.{Modulation, encode_modulation, decode_modulation}
use client_py.Modulation.RoundTrip.{decode_modulation-encode_modulation}
use client_py.Modulation.Bytewise.{HasBytes, encode_modulation-AtMost}
use client_py.Commands.{type_set_config, encode_set_config_payload}
use client_py.Session.State.{Session}
use client_py.Session.Send.{begin, set_config, alloc_tag, register_pending, after_write}
use client_py.Session.Wire.{begin_on_wire}

-- The frame of a SET_CONFIG.
config_frame-Fits :
    (m : Modulation) (payload : Bytes) (tag : ℕ)
    → HasBytes m
    → tag < 65536
    → encode_modulation m ≡ ok payload
    → Fits (record { type_id = type_set_config; tag = tag; payload = payload })
config_frame-Fits m payload tag typed low e =
    let (bytes, short) = encode_modulation-AtMost m payload typed e in
    record {
      type_fits = omega arith;
      tag_fits = low;
      payload_fits = omega (arith, short);
      payload_bytes = bytes;
    }

module _ {Float : Type 0} (cobs : Cobs) where
  begin_returns :
      (cmd_type : ℕ) (payload wire : Bytes) (s : Session Float)
      → encode_frame cobs (pos cmd_type) (pos s.next_tag) payload ≡ ok wire
      → (begin cobs cmd_type (ok payload) (ok tt) s).0 ≡ ok (s.next_tag, length s.objects)
  unfolding begin alloc_tag register_pending after_write
  begin_returns cmd_type payload wire s e = simp e

  -- With COBS as documented, a set_config whose transport.write does not raise is sent, for every
  -- configuration that encode_modulation encodes and whose sync word, if it has one as a byte string,
  -- holds bytes, over a session whose next tag is below 2^16. It waits under this tag and has written one
  -- wire form, and whoever reads it, with any reads behind it, reads the SET_CONFIG frame with this tag
  -- and a payload that decode_modulation maps to the configuration.
  pub set_config_carried :
      (m : Modulation) (payload : Bytes) (s : Session Float) (reads : List Read)
      → IsCobs cobs
      → HasBytes m
      → s.next_tag < 65536
      → encode_modulation m ≡ ok payload
      → (wire : Bytes) × (s1 : Session Float) × (set_config cobs m (ok tt) s
          ≡ (ok (s.next_tag, length s.objects), s1))
        × (s1.written ≡ s.written ++ wire ∷ [])
        × (read_frame cobs (map byte wire ++ reads)
            ≡ some (
              ok (some (record { type_id = type_set_config; tag = s.next_tag; payload = payload })),
              reads,
            ))
        × (decode_modulation payload ≡ ok m)
  unfolding set_config encode_set_config_payload
  set_config_carried m payload s reads laws typed low e =
      let fits = config_frame-Fits m payload s.next_tag typed low e in
      let s1 = (begin cobs type_set_config (ok payload) (ok tt) s).1 in
      let sent : begin cobs type_set_config (ok payload) (ok tt) s
          ≡ (ok (s.next_tag, length s.objects), s1) =
        ap (λ r. (r, s1))
          (begin_returns type_set_config payload _ s (encode_frame-Fits cobs _ fits)) in
      let (wire, written, read) =
        begin_on_wire cobs type_set_config s.next_tag (length s.objects) payload (ok tt) s s1 reads
          laws fits.payload_bytes sent in
      (wire, s1, rw e sent, written, read, decode_modulation-encode_modulation m payload e)
