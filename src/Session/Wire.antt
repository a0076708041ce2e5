-- ===== src/Session/Wire.antt =====
-- Commands and the reader thread on the wire: frame.py and session.py together.
use client_py.Prelude.{
  ℕ, refl, ◌∷◌, All, length, ◌≡◌, sym, ap, ◌∙◌, false, some, [], ◌++◌, map, List,
}
use client_py.Prelude.Int.{pos}
use client_py.Python.Result.{Result, ok, err, ok_injective}
use client_py.Python.Struct.{Bytes, IsByte}
use client_py.Python.Float.{Floats}
use client_py.Frame.{Cobs, IsCobs, Frame, Read, byte, encode_frame, read_frame}
use client_py.Frame.RoundTrip.{Fits}
use client_py.Frame.Stream.{read_frame_resync}
use client_py.Frame.Bounds.{encode_frame-Fits}
use client_py.Session.Send.{begin, after_write, forget_pending, alloc_tag, register_pending}
use client_py.Session.State.{Session}
use client_py.Session.Reader.{reader_round, continued, dispatch}

module _ (cobs : Cobs) where
  pub read_frame-wire :
      (f : Frame) (wire : Bytes) (reads : List Read)
      → IsCobs cobs
      → Fits f
      → encode_frame cobs (pos f.type_id) (pos f.tag) f.payload ≡ ok wire
      → read_frame cobs (map byte wire ++ reads) ≡ some (ok (some f), reads)
  read_frame-wire f wire reads laws fits e =
      let (wire', e', skipped, r) = read_frame_resync cobs [] f reads laws tt fits in
      ap (λ w. read_frame cobs (map byte w ++ reads)) (ok_injective wire wire' (sym e ∙ e')) ∙ r

module _ (cobs : Cobs) (fl : Floats) where
  -- If the transport gives the wire form of a frame that fits, a round of the reader thread of a session
  -- that is not closed dispatches this frame, whatever the dispatch raises, and goes on with the reads
  -- behind it.
  pub reader_round_dispatches :
      (f : Frame) (wire : Bytes) (reads : List Read) (s : Session fl.Float)
      → IsCobs cobs
      → Fits f
      → encode_frame cobs (pos f.type_id) (pos f.tag) f.payload ≡ ok wire
      → s.closed ≡ false
      → reader_round cobs fl (map byte wire ++ reads) s ≡ continued reads (dispatch fl f s).1
  unfolding reader_round
  reader_round_dispatches f wire reads s laws fits e alive =
      simp (alive, read_frame-wire cobs f wire reads laws fits e)

module _ {Float : Type 0} (cobs : Cobs) where
  after_write-written :
      (tag0 ref0 tag ref : ℕ) (encoded : Result Bytes) (write : Result (Unit {0}))
      (s s1 : Session Float)
      → after_write tag0 ref0 encoded write s ≡ (ok (tag, ref), s1)
      → (wire : Bytes) × (encoded ≡ ok wire) × (s1.written ≡ s.written ++ wire ∷ []) × (tag0 ≡ tag)
  unfolding after_write forget_pending
  after_write-written tag0 ref0 tag ref (err e) write s s1 h = cc
  after_write-written tag0 ref0 tag ref (ok wire) (err e) s s1 h = cc
  after_write-written tag0 ref0 tag ref (ok wire) (ok r) s s1 h = (
    wire,
    refl,
    ap (λ r. r.1.written) (sym h),
    ap (λ (p : ℕ × ℕ). p.0) (ok_injective (tag0, ref0) (tag, ref) (ap (λ r. r.0) h)),
  )

  -- With COBS as documented, a command that is sent and has a byte string for its payload has written one
  -- wire form, and whoever reads it, with any reads behind it, reads the frame with the type of the
  -- command, the tag that the command waits under, and its payload.
  pub begin_on_wire :
      (cmd_type tag ref : ℕ) (payload : Bytes) (write : Result (Unit {0})) (s s1 : Session Float)
      (reads : List Read)
      → IsCobs cobs
      → All IsByte payload
      → begin cobs cmd_type (ok payload) write s ≡ (ok (tag, ref), s1)
      → (wire : Bytes) × (s1.written ≡ s.written ++ wire ∷ [])
        × (read_frame cobs (map byte wire ++ reads)
            ≡ some (ok (some (record { type_id = cmd_type; tag = tag; payload = payload })), reads))
  unfolding begin alloc_tag register_pending
  begin_on_wire cmd_type tag ref payload write s s1 reads laws bytes h =
      let (wire, encoded, written, same_tag) =
        after_write-written s.next_tag (length s.objects) tag ref _ write _ s1 h in
      let sent : Frame = record { type_id = cmd_type; tag = s.next_tag; payload = payload } in
      let fits = encode_frame-Fits cobs sent wire bytes encoded in
      (
        wire,
        written,
        read_frame-wire cobs sent wire reads laws fits encoded
            ∙ ap
                (λ (t : ℕ).
                  some
                    (ok (some (record { type_id = cmd_type; tag = t; payload = payload })), reads))
                same_tag,
      )
