-- ===== src/Frame/Stream.antt =====
-- read_frame and iter_frames over streams of frames.
pub mod Replay
use client_py.Prelude.{
  ℕ, zero, suc, ◌+◌, ◌-◌, ◌≡◌, ◌≢◌, refl, ap, sym, ◌∙◌, ◌<◌, List, [], ◌∷◌, ◌++◌, map, ◌==◌, ==_ne,
  lt→ltb, ltb, leb, length, All, All-append, arith, Option, some, none, true, false, append_assoc,
  append-nil, length-append, subst, take, drop, slice, Bool-cases, inl, inr, if◌then◌else◌,
  take-append_length, drop-append_length,
}
use client_py.Prelude.Int.{pos}
use client_py.Python.Result.{Error, Result, ok, err, ◌>>=◌}
use client_py.Python.Struct.{Bytes, IsByte}
use client_py.Frame.{
  Cobs, IsCobs, Frame, Read, byte, timeout, os_failure, encode_frame, decode_frame, end_of_frame,
  read_loop, read_frame, iter_loop, iter_frames,
}
use client_py.Frame.RoundTrip.{
  Fits, sealed_body, sealed_body-IsByte, encode_frame-Fits, decode_frame-encode,
  decode_frame-encode_frame,
}

abbrev pub NonZero : ℕ → Type 0
NonZero b = b ≢ 0

map_byte_append :
    (inner : Bytes) (reads : List Read)
    → map byte (inner ++ 0 ∷ []) ++ reads ≡ map byte inner ++ byte 0 ∷ reads
map_byte_append [] reads = refl
map_byte_append (b ∷ inner) reads = ap (λ l. byte b ∷ l) (map_byte_append inner reads)

module _ (cobs : Cobs) where
  -- Bytes other than 0x00 go into the buffer.
  read_loop-append :
      (buf inner : Bytes) (reads : List Read)
      → All NonZero inner
      → read_loop cobs buf (map byte inner ++ reads) ≡ read_loop cobs (buf ++ inner) reads
  unfolding read_loop
  read_loop-append buf [] reads h = ap (λ b. read_loop cobs b reads) (sym (append-nil buf))
  read_loop-append buf (b ∷ inner) reads h = rw (==_ne b 0 h.0) (
      read_loop-append (buf ++ b ∷ []) inner reads h.1
      ∙ ap (λ l. read_loop cobs l reads) (append_assoc buf (b ∷ []) inner))

  read_loop_zero :
      (buf : Bytes) (reads : List Read)
      → read_loop cobs buf (byte 0 ∷ reads) ≡ some (end_of_frame cobs buf, reads)
  unfolding read_loop
  read_loop_zero buf reads = refl

  read_loop_timeout :
      (buf : Bytes) (reads : List Read)
      → read_loop cobs buf (timeout ∷ reads) ≡ some (ok none, reads)
  unfolding read_loop
  read_loop_timeout buf reads = refl

  -- A delimited chunk is one call, and the call leaves what follows the 0x00.
  read_frame_chunk :
      (inner : Bytes) (reads : List Read)
      → All NonZero inner
      → read_frame cobs (map byte (inner ++ 0 ∷ []) ++ reads)
        ≡ some (end_of_frame cobs inner, reads)
  unfolding read_frame
  read_frame_chunk inner reads h =
      ap (read_loop cobs []) (map_byte_append inner reads)
      ∙ read_loop-append [] inner (byte 0 ∷ reads) h
      ∙ read_loop_zero inner reads

  end_of_frame-decode :
      (inner : Bytes) (f : Frame)
      → inner ≢ []
      → decode_frame cobs inner ≡ ok f
      → end_of_frame cobs inner ≡ ok (some f)
  unfolding end_of_frame
  end_of_frame-decode [] f ne h = absurd (ne refl)
  end_of_frame-decode (b ∷ inner) f ne h = rw h

  -- After noise without a 0x00 and one 0x00, an encoded frame is read as itself: the first call
  -- consumes the noise, and the second returns the frame and leaves the reads that follow it.
  pub read_frame_resync :
      (noise : Bytes) (f : Frame) (reads : List Read)
      → IsCobs cobs
      → All NonZero noise
      → Fits f
      → (wire : Bytes) × (encode_frame cobs (pos f.type_id) (pos f.tag) f.payload ≡ ok wire)
        × (read_frame cobs (map byte (noise ++ 0 ∷ []) ++ (map byte wire ++ reads))
            ≡ some (end_of_frame cobs noise, map byte wire ++ reads))
        × (read_frame cobs (map byte wire ++ reads) ≡ some (ok (some f), reads))
  read_frame_resync noise f reads laws clean fits =
      let (inner, e, nz, ne, d) = decode_frame-encode_frame cobs f laws fits in
      (
        inner ++ 0 ∷ [],
        e,
        read_frame_chunk noise (map byte (inner ++ 0 ∷ []) ++ reads) clean,
        read_frame_chunk inner reads nz
            ∙ ap (λ r. some (r, reads)) (end_of_frame-decode inner f ne d),
      )

  -- A timeout ends the call with None and drops the bytes that it has read: they are in neither the
  -- result nor the reads that are left, so a frame with a timeout inside it is lost.
  pub read_frame_timeout :
      (front : Bytes) (reads : List Read)
      → All NonZero front
      → read_frame cobs (map byte front ++ timeout ∷ reads) ≡ some (ok none, reads)
  unfolding read_frame
  read_frame_timeout front reads h =
      read_loop-append [] front (timeout ∷ reads) h ∙ read_loop_timeout front reads
