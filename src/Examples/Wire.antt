-- ===== src/Examples/Wire.antt =====
-- Runs of crc.py and frame.py. In place of the package `cobs` stands an escape code that meets IsCobs.
use client_py.Prelude.{
  ℕ, zero, suc, ◌≡◌, ◌≢◌, refl, ap, [], ◌∷◌, ◌++◌, map, Option, none, some, All, arith,
}
use client_py.Prelude.Int.{pos, negsuc}
use client_py.Python.Result.{ok, err, frame_crc_error, value_error}
use client_py.Python.Struct.{Bytes, le, pack_unsigned, in_unsigned}
use client_py.Crc.{crc16, crc_from, crc_byte, crc_bits, crc_bit}
use client_py.Frame.{
  Cobs, IsCobs, Frame, byte, timeout, encode_frame, decode_frame, parse_frame, read_frame,
  end_of_frame, iter_frames,
}
use client_py.Frame.RoundTrip.{Fits, frame_body, decode_frame-encode_frame}
use client_py.Frame.Corruption.{decode_frame_detects_byte}
use client_py.Frame.Stream.{read_frame_resync, read_frame_timeout}
use client_py.Frame.Stream.Replay.{nothing, frame_first, iter_frames-Recorded}

-- 0 and 1 become 1 1 and 1 2; a 2 stands in front.
unfoldable pub escape : Bytes → Bytes
escape [] = []
escape (zero ∷ bs) = 1 ∷ 1 ∷ escape bs
escape (suc zero ∷ bs) = 1 ∷ 2 ∷ escape bs
escape (suc (suc b) ∷ bs) = suc (suc b) ∷ escape bs

abbrev cons : ℕ → Option Bytes → Option Bytes
cons b none = none
cons b (some bs) = some (b ∷ bs)

unfoldable pub unescape : Bytes → Option Bytes
unescape [] = some []
unescape (zero ∷ bs) = none
unescape (suc zero ∷ []) = none
unescape (suc zero ∷ zero ∷ bs) = none
unescape (suc zero ∷ suc b ∷ bs) = cons b (unescape bs)
unescape (suc (suc b) ∷ bs) = cons (suc (suc b)) (unescape bs)

abbrev unmark : Bytes → Option Bytes
unmark (suc (suc zero) ∷ bs) = unescape bs
unmark _ = none

abbrev pub escapes : Cobs
escapes = record { encode = λ bs. 2 ∷ escape bs; decode = unmark }

unescape-escape : (bs : Bytes) → unescape (escape bs) ≡ some bs
unfolding escape unescape
unescape-escape [] = refl
unescape-escape (zero ∷ bs) = ap (cons 0) (unescape-escape bs)
unescape-escape (suc zero ∷ bs) = ap (cons 1) (unescape-escape bs)
unescape-escape (suc (suc b) ∷ bs) = ap (cons (suc (suc b))) (unescape-escape bs)

escape_no_zero : (bs : Bytes) → All (λ b. b ≢ 0) (escape bs)
unfolding escape
escape_no_zero [] = tt
escape_no_zero (zero ∷ bs) = (omega arith, (omega arith, escape_no_zero bs))
escape_no_zero (suc zero ∷ bs) = (omega arith, (omega arith, escape_no_zero bs))
escape_no_zero (suc (suc b) ∷ bs) = (omega arith, escape_no_zero bs)

pub escapes-IsCobs : IsCobs escapes
escapes-IsCobs = record {
  decode-encode = λ bs h. unescape-escape bs;
  encode_no_zero = λ bs h. (omega arith, escape_no_zero bs);
  encode_nonempty = λ bs h. λ e. cc;
}

-- A PING with tag 1, and an OK with two bytes of payload.
abbrev pub ping_frame : Frame
ping_frame = record { type_id = 1; tag = 1; payload = [] }

abbrev pub ok_frame : Frame
ok_frame = record { type_id = 0x80; tag = 0x0201; payload = 0 ∷ 255 ∷ [] }

pub ping-Fits : Fits ping_frame
ping-Fits = record {
  type_fits = omega arith;
  tag_fits = omega arith;
  payload_fits = omega arith;
  payload_bytes = ground arith;
}

ok-Fits : Fits ok_frame
ok-Fits = record {
  type_fits = omega arith;
  tag_fits = omega arith;
  payload_fits = omega arith;
  payload_bytes = ground arith;
}

-- The check value of CRC-16/CCITT-FALSE.
crc_check_value : crc16 (0x31 ∷ 0x32 ∷ 0x33 ∷ 0x34 ∷ 0x35 ∷ 0x36 ∷ 0x37 ∷ 0x38 ∷ 0x39 ∷ []) ≡ 0x29b1
unfolding crc16 crc_from crc_byte crc_bits crc_bit
crc_check_value = refl

crc_of_nothing : crc16 [] ≡ 0xffff
unfolding crc16 crc_from
crc_of_nothing = refl

decode_frame-encode_frame_example :
    (inner : Bytes) × (encode_frame escapes (pos 0x80) (pos 0x0201) (0 ∷ 255 ∷ [])
      ≡ ok (inner ++ 0 ∷ []))
    × All (λ b. b ≢ 0) inner
    × (inner ≢ [])
    × (decode_frame escapes inner ≡ ok ok_frame)
decode_frame-encode_frame_example =
    decode_frame-encode_frame escapes ok_frame escapes-IsCobs ok-Fits

read_frame_resync_example :
    (wire : Bytes) × (encode_frame escapes (pos 0x80) (pos 0x0201) (0 ∷ 255 ∷ []) ≡ ok wire)
    × (read_frame escapes (map byte (7 ∷ 9 ∷ 0 ∷ []) ++ (map byte wire ++ timeout ∷ []))
        ≡ some (end_of_frame escapes (7 ∷ 9 ∷ []), map byte wire ++ timeout ∷ []))
    × (read_frame escapes (map byte wire ++ timeout ∷ []) ≡ some (ok (some ok_frame), timeout ∷ []))
read_frame_resync_example =
    read_frame_resync escapes (7 ∷ 9 ∷ []) ok_frame (timeout ∷ []) escapes-IsCobs
      (omega arith, (omega arith, tt)) ok-Fits

read_frame_timeout_example :
    read_frame escapes (byte 2 ∷ byte 9 ∷ timeout ∷ byte 0 ∷ []) ≡ some (ok none, byte 0 ∷ [])
read_frame_timeout_example =
    read_frame_timeout escapes (2 ∷ 9 ∷ []) (byte 0 ∷ []) (omega arith, (omega arith, tt))

-- The body of a PING is 1, 1, 0, and its CRC is 0xc89d.
abbrev ping_sealed : Bytes
ping_sealed = 1 ∷ 1 ∷ 0 ∷ 0x9d ∷ 0xc8 ∷ []

abbrev pub ping_bytes : Bytes
ping_bytes = 2 ∷ 1 ∷ 2 ∷ 1 ∷ 2 ∷ 1 ∷ 1 ∷ 0x9d ∷ 0xc8 ∷ 0 ∷ []

pub ping_wire : encode_frame escapes (pos 1) (pos 1) [] ≡ ok ping_bytes
unfolding encode_frame pack_unsigned in_unsigned escape crc16 crc_from crc_byte crc_bits crc_bit
ping_wire = refl

ping_parsed : parse_frame ping_sealed ≡ ok ping_frame
unfolding parse_frame crc16 crc_from crc_byte crc_bits crc_bit
ping_parsed = refl

-- The guards of encode_frame.
tag_too_large : encode_frame escapes (pos 1) (pos 0x10000) [] ≡ err value_error
unfolding encode_frame
tag_too_large = refl

negative_type : encode_frame escapes (negsuc 0) (pos 1) [] ≡ err value_error
unfolding encode_frame
negative_type = refl

corrupt_decoded :
    escapes.decode (2 ∷ 0x80 ∷ 1 ∷ 2 ∷ 2 ∷ 4 ∷ 255 ∷ 0xf8 ∷ 0x35 ∷ [])
    ≡ some ((0x80 ∷ 1 ∷ 2 ∷ 4 ∷ 255 ∷ []) ++ le 2 (crc16 (frame_body ok_frame)))
unfolding unescape crc16 crc_from crc_byte crc_bits crc_bit
corrupt_decoded = refl

decode_frame_detects_byte_example :
    decode_frame escapes (2 ∷ 0x80 ∷ 1 ∷ 2 ∷ 2 ∷ 4 ∷ 255 ∷ 0xf8 ∷ 0x35 ∷ []) ≡ err frame_crc_error
decode_frame_detects_byte_example =
    decode_frame_detects_byte escapes ok_frame (2 ∷ 0x80 ∷ 1 ∷ 2 ∷ 2 ∷ 4 ∷ 255 ∷ 0xf8 ∷ 0x35 ∷ [])
      (0x80 ∷ 1 ∷ 2 ∷ []) (255 ∷ []) 0 4 ok-Fits refl (omega arith) (omega arith) corrupt_decoded

iter_frames-Recorded_example :
    iter_frames escapes (ping_bytes ++ (ping_bytes ++ [])) ≡ (ping_frame ∷ ping_frame ∷ [], none)
iter_frames-Recorded_example =
    iter_frames-Recorded escapes (ping_frame ∷ ping_frame ∷ []) (ping_bytes ++ (ping_bytes ++ []))
      escapes-IsCobs
      (frame_first ping_frame ping_bytes (ping_bytes ++ []) ping-Fits ping_wire
        (frame_first ping_frame ping_bytes [] ping-Fits ping_wire nothing))
