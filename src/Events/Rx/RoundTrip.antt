-- ===== src/Events/Rx/RoundTrip.antt =====
-- RxEvent.encode and RxEvent.decode are inverse up to the rounding of the levels.
use client_py.Prelude.{ℕ, ◌≡◌, ◌<◌, refl, subst, All, [], ◌∷◌, length, arith, leb-pad}
use client_py.Prelude.Int.{pos, negsuc, ◌≤ℤ◌}
use client_py.Python.Result.{ok, value_error, >>=-eq-ok, guard_step, ok_injective}
use client_py.Python.Struct.{Bytes, IsByte, signed, from_le, is_bit}
use client_py.Python.Struct.Laws.{
  pack_unsigned-from_le, pack_signed-from_le, bytes_of-map_pos, bit_of-truth, unsigned_step,
  signed_step, bytes_step, is_bit-bit_of, truth-bit_of, from_le-pack_unsigned, from_le-pack_signed,
}
use client_py.Python.Enum.{enum_call, call_sound, call-int_of}
use client_py.Python.Float.{Floats, RoundsTenths}
use client_py.Events.Enums.{rx_origin_enum}
use client_py.Events.Rx.{RxEvent, encode, decode}

signed_16 : (n : ℕ) → n < 65536 → (negsuc 32767 ≤ℤ signed 2 n) × (signed 2 n ≤ℤ pos 32767)
signed_16 n h = ground arith

module _ (fl : Floats) (rounds : RoundsTenths fl) where
  -- The two bytes of a level survive the way to tenths of a decibel and back.
  tenths :
      (a b : ℕ)
      → IsByte a
      → IsByte b
      → fl.round_tenths (fl.tenth (signed 2 (from_le (a ∷ b ∷ []))))
        ≡ signed 2 (from_le (a ∷ b ∷ []))
  tenths a b ha hb =
      let (lo, hi) = signed_16 (from_le (a ∷ b ∷ [])) (omega arith) in
      rounds.round_tenths-tenth _ lo hi

  -- If rounding undoes the division by ten on 16-bit integers, an RX payload that RxEvent.decode accepts is what RxEvent.encode writes for the event.
  pub encode-decode_rx :
      (bs : Bytes) (e : RxEvent fl.Float)
      → All IsByte bs
      → decode fl bs ≡ ok e
      → encode fl e ≡ ok bs
  unfolding decode encode
  encode-decode_rx
        (b0 ∷ b1 ∷ b2 ∷ b3 ∷ b4 ∷ b5 ∷ b6 ∷ b7 ∷ b8 ∷ b9 ∷ b10 ∷ b11 ∷ b12 ∷ b13 ∷ b14 ∷ b15 ∷ b16
          ∷ b17 ∷ b18 ∷ b19 ∷ packet)
        e k h =
      let n = length packet in
      let h0 =
        simp
          (
            leb-pad 20 20 n (omega arith),
            leb-pad 2 20 n (omega arith),
            leb-pad 4 20 n (omega arith),
            leb-pad 8 20 n (omega arith),
            leb-pad 16 20 n (omega arith),
            leb-pad 19 20 n (omega arith),
          )
          at h in
      let (valid, h1) = guard_step (is_bit b16) value_error _ h0 in
      let (origin, horigin, h2) = >>=-eq-ok (enum_call b19) _ h1 in
      subst
        (λ x.
          encode fl x
          ≡ ok (
              b0 ∷ b1 ∷ b2 ∷ b3 ∷ b4 ∷ b5 ∷ b6 ∷ b7 ∷ b8 ∷ b9 ∷ b10 ∷ b11 ∷ b12 ∷ b13 ∷ b14 ∷ b15
              ∷ b16 ∷ b17 ∷ b18 ∷ b19 ∷ packet))
        (ok_injective _ _ h2)
        (simp (
          tenths b0 b1 (omega arith) (omega arith),
          tenths b2 b3 (omega arith) (omega arith),
          call_sound b19 origin horigin,
          bit_of-truth b16 valid,
          pack_signed-from_le 1 (b0 ∷ b1 ∷ []) refl (omega arith),
          pack_signed-from_le 1 (b2 ∷ b3 ∷ []) refl (omega arith),
          pack_signed-from_le 3 (b4 ∷ b5 ∷ b6 ∷ b7 ∷ []) refl (omega arith),
          pack_unsigned-from_le (b8 ∷ b9 ∷ b10 ∷ b11 ∷ b12 ∷ b13 ∷ b14 ∷ b15 ∷ []) (omega arith),
          bytes_of-map_pos (b16 ∷ []) (omega arith),
          pack_unsigned-from_le (b17 ∷ b18 ∷ []) (omega arith),
          bytes_of-map_pos (b19 ∷ []) (omega arith),
        ))
  encode-decode_rx _ e k h = ground arith

-- The event with its levels as they are sent, in tenths of a decibel.
abbrev pub in_tenths_of : (fl : Floats) → RxEvent fl.Float → RxEvent fl.Float
in_tenths_of fl e = record e {
  rssi_dbm = fl.tenth (fl.round_tenths e.rssi_dbm);
  snr_db = fl.tenth (fl.round_tenths e.snr_db);
}

-- What RxEvent.encode writes for an event, RxEvent.decode reads back as this event with its levels rounded
-- to tenths of a decibel, whatever the operations on floating-point numbers are.
pub decode-encode_rx :
    (fl : Floats) (e : RxEvent fl.Float) (bs : Bytes)
    → encode fl e ≡ ok bs
    → decode fl bs ≡ ok (in_tenths_of fl e)
unfolding encode
decode-encode_rx fl e bs h =
    let (rssi, h1) = signed_step 2 (fl.round_tenths e.rssi_dbm) _ h in
    let (snr, h2) = signed_step 2 (fl.round_tenths e.snr_db) _ h1 in
    let (freq_err, h3) = signed_step 4 e.freq_err_hz _ h2 in
    let (timestamp, h4) = unsigned_step 8 e.timestamp_us _ h3 in
    let (crc, h5) = bytes_step _ _ h4 in
    let (dropped, h6) = unsigned_step 2 e.packets_dropped _ h5 in
    let (origin, h7) = bytes_step _ _ h6 in
    let n = length e.packet in
    subst (λ x. decode fl x ≡ ok (in_tenths_of fl e)) (ok_injective _ _ h7)
      (unfold decode in
        simp (
          leb-pad 20 20 n (omega arith),
          leb-pad 2 20 n (omega arith),
          leb-pad 4 20 n (omega arith),
          leb-pad 8 20 n (omega arith),
          leb-pad 16 20 n (omega arith),
          leb-pad 19 20 n (omega arith),
          call-int_of,
          is_bit-bit_of,
          truth-bit_of,
          from_le-pack_signed 1 (fl.round_tenths e.rssi_dbm) rssi,
          from_le-pack_signed 1 (fl.round_tenths e.snr_db) snr,
          from_le-pack_signed 3 e.freq_err_hz freq_err,
          from_le-pack_unsigned 8 e.timestamp_us timestamp,
          from_le-pack_unsigned 2 e.packets_dropped dropped,
        ))
