-- ===== src/Frame.antt =====
-- donglora/frame.py: COBS(type || tag_le || payload || crc_le) || 0x00, and its readers.
pub mod RoundTrip
pub mod Bounds
pub mod Corruption
pub mod Stream
use client_py.Prelude.{
  ℕ, ◌+◌, ◌-◌, ◌≡◌, ◌≢◌, Bool, ◌&&◌, List, [], ◌∷◌, ◌++◌, ◌==◌, ltb, leb, if◌then◌else◌, length,
  take, drop, slice, Option, none, some, All,
}
use client_py.Prelude.Int.{ℤ, pos, leb_ℤ}
use client_py.Python.Result.{
  Error, Result, ok, err, value_error, os_error, frame_too_large_error, frame_cobs_error,
  frame_too_short_error, frame_crc_error, ◌>>=◌, ◌>>◌, guard,
}
use client_py.Python.Struct.{Bytes, IsByte, pack_unsigned, raw_from, byte_at}
use client_py.Crc.{crc16}

abbrev pub max_ota_payload : ℕ
max_ota_payload = 255

abbrev pub max_payload_field : ℕ
max_payload_field = max_ota_payload + 20

abbrev pub frame_header_size : ℕ
frame_header_size = 3

abbrev pub frame_trailer_size : ℕ
frame_trailer_size = 2

abbrev pub max_pre_cobs_frame : ℕ
max_pre_cobs_frame = frame_header_size + max_payload_field + frame_trailer_size

abbrev pub max_cobs_overhead : ℕ
max_cobs_overhead = 3

abbrev pub max_wire_frame : ℕ
max_wire_frame = max_pre_cobs_frame + max_cobs_overhead + 1

-- The package `cobs`. `none` is its DecodeError.
pub record Cobs : Type 0 where
  pub encode : Bytes → Bytes
  pub decode : Bytes → Option Bytes

-- What the package documents: decoding undoes encoding, and an encoding is a byte string that is not
-- empty and holds no 0x00.
pub record IsCobs (cobs : Cobs) : Type 0 where
  pub decode-encode : (bs : Bytes) → All IsByte bs → cobs.decode (cobs.encode bs) ≡ some bs
  pub encode_no_zero : (bs : Bytes) → All IsByte bs → All (λ b. b ≢ 0) (cobs.encode bs)
  pub encode_nonempty : (bs : Bytes) → All IsByte bs → cobs.encode bs ≢ []

pub record Frame : Type 0 where
  pub type_id : ℕ
  pub tag : ℕ
  pub payload : Bytes

-- What `reader.read(1)` gives: a byte, b"" on a timeout, or an OSError.
pub data Read : Type 0 where
  byte : ℕ → Read
  timeout : Read
  os_failure : Read

-- The part of `decode_frame` behind `cobs.decode`.
unfoldable pub parse_frame : Bytes → Result Frame
parse_frame decoded = do
  guard (leb (frame_header_size + frame_trailer_size) (length decoded)) frame_too_short_error
  let body = take (length decoded - frame_trailer_size) decoded
  let crc_bytes = drop (length decoded - frame_trailer_size) decoded
  got ← raw_from 2 crc_bytes 0
  guard (crc16 body == got) frame_crc_error
  type_id ← byte_at body 0
  tag ← raw_from 2 body 1
  ok (record { type_id = type_id; tag = tag; payload = drop frame_header_size body })

module _ (cobs : Cobs) where
  unfoldable pub encode_frame : ℤ → ℤ → Bytes → Result Bytes
  encode_frame type_id tag payload = do
    guard (leb_ℤ (pos 0) type_id && leb_ℤ type_id (pos 0xff)) value_error
    guard (leb_ℤ (pos 0) tag && leb_ℤ tag (pos 0xffff)) value_error
    guard (leb (length payload) max_payload_field) frame_too_large_error
    type_byte ← pack_unsigned 1 type_id
    tag_bytes ← pack_unsigned 2 tag
    let body = type_byte ++ tag_bytes ++ payload
    crc ← pack_unsigned 2 (pos (crc16 body))
    ok (cobs.encode (body ++ crc) ++ 0 ∷ [])

  unfoldable pub decode_frame : Bytes → Result Frame
  decode_frame frame_bytes = elim (cobs.decode frame_bytes) [
    | none ↦ err frame_cobs_error
    | some decoded ↦ parse_frame decoded
  ]

  -- `if not buf: return None`, else the decoded frame.
  unfoldable pub end_of_frame : Bytes → Result (Option Frame)
  end_of_frame [] = ok none
  end_of_frame (b ∷ bs) = do frame ← decode_frame (b ∷ bs); ok (some frame)

  -- The loop of `read_frame` from the buffer `buf`, over what the reads will give. The result comes
  -- with the reads that are left; `none` means that the loop still waits for a read.
  unfoldable pub read_loop : Bytes → List Read → Option (Result (Option Frame) × List Read)
  read_loop buf [] = none
  read_loop buf (timeout ∷ reads) = some (ok none, reads)
  read_loop buf (os_failure ∷ reads) = some (err os_error, reads)
  read_loop buf (byte b ∷ reads) =
      let more = read_loop (buf ++ b ∷ []) reads in
      if b == 0 then some (end_of_frame buf, reads) else more

  unfoldable pub read_frame : List Read → Option (Result (Option Frame) × List Read)
  read_frame reads = read_loop [] reads

  abbrev yield_frame : Result Frame → List Frame × Option Error → List Frame × Option Error
  yield_frame (ok frame) (frames, end) = (frame ∷ frames, end)
  yield_frame (err e) later = ([], some e)

  -- The loop of `iter_frames` from index `i` on; the last argument is `data[i:]`. The frames yielded,
  -- and the exception that ends the iteration, if any.
  unfoldable pub iter_loop : Bytes → ℕ → ℕ → Bytes → List Frame × Option Error
  iter_loop bytes i start [] = ([], none)
  iter_loop bytes i start (b ∷ rest) =
      let next = iter_loop bytes (i + 1) (if b == 0 then i + 1 else start) rest in
      if b == 0
      then if ltb start i then yield_frame (decode_frame (slice bytes start i)) next else next
      else next

  unfoldable pub iter_frames : Bytes → List Frame × Option Error
  iter_frames bytes = iter_loop bytes 0 0 bytes
