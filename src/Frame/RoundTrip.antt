-- ===== src/Frame/RoundTrip.antt =====
-- decode_frame reads back what encode_frame wrote.
use client_py.Prelude.{
  true, ℕ, ◌%◌, ◌/◌, ◌≢◌, ◌∙◌, ◌-◌, ◌≡◌, ap, ◌≤◌, ◌<◌, [], ◌∷◌, ◌++◌, ◌==◌, ==_refl, leb, le→leb,
  lt→ltb, length, length-append, drop, take-append_length, drop-append_length, All, All-append,
  arith,
}
use client_py.Prelude.Int.{pos, leb_ℤ}
use client_py.Python.Result.{ok, frame_crc_error, ◌>>=◌, ◌>>◌, guard}
use client_py.Python.Struct.{
  Bytes, IsByte, le, from_le, pack_unsigned, in_unsigned, raw_from, byte_at,
}
use client_py.Python.Struct.Laws.{from_le-le, le-IsByte}
use client_py.Crc.{crc16}
use client_py.Crc.Detection.{crc16-IsU16}
use client_py.Frame.{
  Cobs, IsCobs, Frame, encode_frame, decode_frame, parse_frame, max_payload_field,
}

-- `decoded[:-2]` and `decoded[-2:]` of a body with two more bytes.
length_trailer : (body : Bytes) (x y : ℕ) → length (body ++ x ∷ y ∷ []) - 2 ≡ length body
length_trailer body x y = omega (arith, length-append body (x ∷ y ∷ []))

-- Behind the length test, `parse_frame` checks the trailer against the CRC of the body.
pub parse_frame_split :
    (body : Bytes) (x y : ℕ)
    → 3 ≤ length body
    → parse_frame (body ++ x ∷ y ∷ []) ≡ (do
      guard (crc16 body == from_le (x ∷ y ∷ [])) frame_crc_error
      type_id ← byte_at body 0
      tag ← raw_from 2 body 1
      ok (record { type_id = type_id; tag = tag; payload = drop 3 body }))
unfolding parse_frame
parse_frame_split body x y h =
    let long : leb 5 (length (body ++ x ∷ y ∷ [])) ≡ true =
      le→leb 5 _ (omega (arith, length-append body (x ∷ y ∷ []))) in
    simp (long, length_trailer, take-append_length, drop-append_length)

-- A body with its own CRC behind it is accepted.
pub parse_frame_body :
    (t g h : ℕ) (payload : Bytes)
    → All IsByte (t ∷ g ∷ h ∷ payload)
    → parse_frame ((t ∷ g ∷ h ∷ payload) ++ le 2 (crc16 (t ∷ g ∷ h ∷ payload)))
      ≡ ok (record { type_id = t; tag = from_le (g ∷ h ∷ []); payload = payload })
parse_frame_body t g h payload bytes =
    let body : Bytes = t ∷ g ∷ h ∷ payload in
    let crc = crc16 body in
    let long : leb 3 (length body) ≡ true = le→leb 3 (length body) (omega arith) in
    simp (
      parse_frame_split body (crc % 256) (crc / 256 % 256) (omega arith),
      from_le-le 2 crc (crc16-IsU16 body bytes),
      ==_refl crc,
      long,
    )

-- The frames that the wire format can carry.
pub record Fits (f : Frame) : Type 0 where
  pub type_fits : f.type_id < 256
  pub tag_fits : f.tag < 65536
  pub payload_fits : length f.payload ≤ max_payload_field
  pub payload_bytes : All IsByte f.payload

-- type || tag_le || payload, and the same with its CRC.
abbrev pub frame_body : Frame → Bytes
frame_body f = f.type_id ∷ le 2 f.tag ++ f.payload

abbrev pub sealed_body : Frame → Bytes
sealed_body f = frame_body f ++ le 2 (crc16 (frame_body f))

pub frame_body-IsByte : (f : Frame) → Fits f → All IsByte (frame_body f)
frame_body-IsByte f fits = (fits.type_fits, (omega arith, (omega arith, fits.payload_bytes)))

-- The trailer holds the CRC.
pub from_le_sealed :
    (f : Frame) → Fits f → from_le (le 2 (crc16 (frame_body f))) ≡ crc16 (frame_body f)
from_le_sealed f fits = from_le-le 2 _ (crc16-IsU16 (frame_body f) (frame_body-IsByte f fits))

pub sealed_body-IsByte : (f : Frame) → Fits f → All IsByte (sealed_body f)
sealed_body-IsByte f fits =
    All-append IsByte (frame_body f) _ (frame_body-IsByte f fits)
      (le-IsByte 2 (crc16 (frame_body f)))

pub parse_frame-sealed_body : (f : Frame) → Fits f → parse_frame (sealed_body f) ≡ ok f
parse_frame-sealed_body f fits =
    parse_frame_body f.type_id (f.tag % 256) (f.tag / 256 % 256) f.payload
      (frame_body-IsByte f fits)
    ∙ ap (λ g. ok (record f { tag = g })) (from_le-le 2 f.tag fits.tag_fits)

module _ (cobs : Cobs) where
  -- A frame that fits is encoded, and its wire form is its sealed body under COBS, then 0x00.
  pub encode_frame-Fits :
      (f : Frame)
      → Fits f
      → encode_frame cobs (pos f.type_id) (pos f.tag) f.payload
        ≡ ok (cobs.encode (sealed_body f) ++ 0 ∷ [])
  unfolding encode_frame pack_unsigned in_unsigned
  encode_frame-Fits f fits =
      let crc = crc16 (frame_body f) in
      let low : (n : ℕ) → leb_ℤ (pos 0) (pos n) ≡ true = λ n. le→leb _ _ (omega arith) in
      let type_fits : leb_ℤ (pos f.type_id) (pos 0xff) ≡ true =
        le→leb _ _ (omega (arith, fits.type_fits)) in
      let tag_fits : leb_ℤ (pos f.tag) (pos 0xffff) ≡ true =
        le→leb _ _ (omega (arith, fits.tag_fits)) in
      let same_type : f.type_id % 256 ≡ f.type_id = omega (arith, fits.type_fits) in
      simp (
        low f.type_id,
        low f.tag,
        type_fits,
        tag_fits,
        le→leb _ _ fits.payload_fits,
        lt→ltb _ _ fits.type_fits,
        lt→ltb _ _ fits.tag_fits,
        same_type,
        lt→ltb _ _ (crc16-IsU16 (frame_body f) (frame_body-IsByte f fits)),
      )

  pub decode_frame-encode :
      (f : Frame) → IsCobs cobs → Fits f → decode_frame cobs (cobs.encode (sealed_body f)) ≡ ok f
  unfolding decode_frame
  decode_frame-encode f laws fits =
      rw (laws.decode-encode (sealed_body f) (sealed_body-IsByte f fits), decode_frame)
        (parse_frame-sealed_body f fits)

  -- Every frame that fits is encoded as bytes other than 0x00 with one 0x00 behind them, and
  -- decode_frame maps the bytes before that 0x00 back to the frame.
  pub decode_frame-encode_frame :
      (f : Frame)
      → IsCobs cobs
      → Fits f
      → (inner : Bytes) × (encode_frame cobs (pos f.type_id) (pos f.tag) f.payload
          ≡ ok (inner ++ 0 ∷ []))
        × All (λ b. b ≢ 0) inner
        × (inner ≢ [])
        × (decode_frame cobs inner ≡ ok f)
  decode_frame-encode_frame f laws fits = (
    cobs.encode (sealed_body f),
    encode_frame-Fits f fits,
    laws.encode_no_zero (sealed_body f) (sealed_body-IsByte f fits),
    laws.encode_nonempty (sealed_body f) (sealed_body-IsByte f fits),
    decode_frame-encode f laws fits,
  )
