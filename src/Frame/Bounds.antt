-- ===== src/Frame/Bounds.antt =====
-- The length of what goes on the wire, and the bounds of what encode_frame takes.
use client_py.Prelude.{
  and_true, All, ◌&&◌, ℕ, ◌+◌, ◌/◌, ◌≤◌, ◌≡◌, sym, subst, ◌∙◌, ap, [], ◌∷◌, ◌++◌, Bool-cases, inl,
  inr, leb, leb→le, length, length-append, arith,
}
use client_py.Prelude.Int.{ℤ, pos, leb_ℤ}
use client_py.Python.Result.{
  Result, ok, err, struct_error, value_error, frame_too_large_error, ok_injective, guard_step,
  >>=-eq-ok,
}
use client_py.Python.Struct.{Bytes, IsByte, pack_unsigned, in_unsigned}
use client_py.Python.Struct.Laws.{length-le}
use client_py.Crc.{crc16}
use client_py.Frame.RoundTrip.{Fits}
use client_py.Frame.{Frame, Cobs, encode_frame, max_wire_frame, max_payload_field}

length-pack_unsigned : (w : ℕ) (z : ℤ) (bs : Bytes) → pack_unsigned w z ≡ ok bs → length bs ≡ w
unfolding pack_unsigned
length-pack_unsigned w z bs h = elim (Bool-cases (in_unsigned w z)) [
  | inl fits ↦ ap length (sym (ok_injective _ bs (rw fits at h))) ∙ length-le w _
  | inr not_fits ↦
      let h' : ◌≡◌ {A = Result Bytes} (err struct_error) (ok bs) = rw not_fits at h in cc
]

-- What the package documents: at most one byte more for every 254 bytes, and one.
unfoldable pub IsCompact : Cobs → Type 0
IsCompact cobs = (bs : Bytes) → length (cobs.encode bs) ≤ length bs + length bs / 254 + 1

wire_length :
    (cobs : Cobs) (ty tg payload crc : Bytes)
    → IsCompact cobs
    → length ty ≡ 1
    → length tg ≡ 2
    → length crc ≡ 2
    → length payload ≤ max_payload_field
    → length (cobs.encode ((ty ++ tg ++ payload) ++ crc) ++ 0 ∷ []) ≤ max_wire_frame
unfolding IsCompact
wire_length cobs ty tg payload crc compact t g c p =
    let pre : Bytes = (ty ++ tg ++ payload) ++ crc in
    omega (
      arith,
      compact pre,
      length-append (cobs.encode pre) (0 ∷ []),
      length-append (ty ++ tg ++ payload) crc,
      length-append (ty ++ tg) payload,
      length-append ty tg,
    )

-- If COBS encoding adds at most one byte for every 254 bytes, and one, then whatever encode_frame
-- returns is no longer than MAX_WIRE_FRAME, for any arguments.
pub encode_frame-max_wire_frame :
    (cobs : Cobs) (type_id tag : ℤ) (payload wire : Bytes)
    → IsCompact cobs
    → encode_frame cobs type_id tag payload ≡ ok wire
    → length wire ≤ max_wire_frame
unfolding encode_frame IsCompact
encode_frame-max_wire_frame cobs type_id tag payload wire compact h =
    let (a, h1) = guard_step (leb_ℤ (pos 0) type_id && leb_ℤ type_id (pos 0xff)) value_error _ h in
    let (b, h2) = guard_step (leb_ℤ (pos 0) tag && leb_ℤ tag (pos 0xffff)) value_error _ h1 in
    let (c, h3) = guard_step (leb (length payload) max_payload_field) frame_too_large_error _ h2 in
    let (ty, t, h4) = >>=-eq-ok (pack_unsigned 1 type_id) _ h3 in
    let (tg, g, h5) = >>=-eq-ok (pack_unsigned 2 tag) _ h4 in
    let (crc, r, h6) = >>=-eq-ok (pack_unsigned 2 (pos (crc16 (ty ++ tg ++ payload)))) _ h5 in
    let fits =
      wire_length cobs ty tg payload crc compact (length-pack_unsigned 1 type_id ty t)
        (length-pack_unsigned 2 tag tg g) (length-pack_unsigned 2 _ crc r)
        (leb→le (length payload) max_payload_field c) in
    subst (λ (w : Bytes). length w ≤ max_wire_frame) (ok_injective _ wire h6) fits

-- What encode_frame accepts fits its fields.
pub encode_frame-Fits :
    (cobs : Cobs) (f : Frame) (wire : Bytes)
    → All IsByte f.payload
    → encode_frame cobs (pos f.type_id) (pos f.tag) f.payload ≡ ok wire
    → Fits f
unfolding encode_frame
encode_frame-Fits cobs f wire bytes h =
    let (a, h1) =
      guard_step (leb_ℤ (pos 0) (pos f.type_id) && leb_ℤ (pos f.type_id) (pos 0xff)) value_error _
        h in
    let (b, h2) =
      guard_step (leb_ℤ (pos 0) (pos f.tag) && leb_ℤ (pos f.tag) (pos 0xffff)) value_error _ h1 in
    let (c, h3) =
      guard_step (leb (length f.payload) max_payload_field) frame_too_large_error _ h2 in
    record {
      type_fits = omega (
        arith,
        leb→le (f.type_id + 0) 255
            (and_true (leb_ℤ (pos 0) (pos f.type_id)) (leb_ℤ (pos f.type_id) (pos 0xff)) a).1,
      );
      tag_fits = omega (
        arith,
        leb→le (f.tag + 0) 65535
            (and_true (leb_ℤ (pos 0) (pos f.tag)) (leb_ℤ (pos f.tag) (pos 0xffff)) b).1,
      );
      payload_fits = leb→le (length f.payload) max_payload_field c;
      payload_bytes = bytes;
    }
