-- ===== src/Modulation/LoRa/RoundTrip.antt =====
-- LoRaConfig.encode and LoRaConfig.decode are inverse.
use client_py.Prelude.{and_true, ◌&&◌, All, subst, ◌≡◌, arith, [], ◌∷◌, refl}
use client_py.Python.Result.{ok, ok_injective, guard_step, >>=-eq-ok}
use client_py.Python.Struct.{Bytes, is_bit, IsByte}
use client_py.Python.Struct.Laws.{
  bit_of-truth, bytes_of-map_pos, pack_unsigned-from_le, pack_signed-from_le, pos-pos_part,
  unsigned_step, signed_step, bytes_step, is_bit-bit_of, truth-bit_of, from_le-pack_unsigned,
  from_le-pack_signed,
}
use client_py.Python.Enum.{enum_call, call-int_of, call_sound}
use client_py.Modulation.LoRa.{LoRaConfig, encode, decode}
use client_py.Modulation.LoRaEnums.{
  lora_bandwidth_enum, lora_coding_rate_enum, lora_header_mode_enum,
}

pub decode-encode : (c : LoRaConfig) (bs : Bytes) → encode c ≡ ok bs → decode bs ≡ ok c
unfolding encode
decode-encode c bs h =
    let (freq, h1) = unsigned_step 4 c.freq_hz _ h in
    let (shape, h2) = bytes_step _ _ h1 in
    let (preamble, h3) = unsigned_step 2 c.preamble_len _ h2 in
    let (sync, h4) = unsigned_step 2 c.sync_word _ h3 in
    let (power, h5) = signed_step 1 c.tx_power_dbm _ h4 in
    let (flags, h6) = bytes_step _ _ h5 in
    subst (λ x. decode x ≡ ok c) (ok_injective _ _ h6)
      (unfold decode in
        simp (
          call-int_of,
          is_bit-bit_of,
          truth-bit_of,
          pos-pos_part c.sf shape.0,
          from_le-pack_unsigned 4 c.freq_hz freq,
          from_le-pack_unsigned 2 c.preamble_len preamble,
          from_le-pack_unsigned 2 c.sync_word sync,
          from_le-pack_signed 0 c.tx_power_dbm power,
        ))

pub encode-decode :
    (bs : Bytes) (c : LoRaConfig) → All IsByte bs → decode bs ≡ ok c → encode c ≡ ok bs
unfolding decode encode
encode-decode (b0 ∷ b1 ∷ b2 ∷ b3 ∷ b4 ∷ b5 ∷ b6 ∷ b7 ∷ b8 ∷ b9 ∷ b10 ∷ b11 ∷ b12 ∷ b13 ∷ b14 ∷ []) c
      ok_bytes h =
    let (bw, hbw, h1) = >>=-eq-ok (enum_call b5) _ h in
    let (cr, hcr, h2) = >>=-eq-ok (enum_call b6) _ h1 in
    let (header_mode, hhm, h3) = >>=-eq-ok (enum_call b12) _ h2 in
    let (flags, h4) = guard_step (is_bit b13 && is_bit b14) _ _ h3 in
    let (crc, iq) = and_true (is_bit b13) (is_bit b14) flags in
    subst
      (λ x.
        encode x
        ≡ ok (b0 ∷ b1 ∷ b2 ∷ b3 ∷ b4 ∷ b5 ∷ b6 ∷ b7 ∷ b8 ∷ b9 ∷ b10 ∷ b11 ∷ b12 ∷ b13 ∷ b14 ∷ []))
      (ok_injective _ _ h4)
      (simp (
        call_sound b5 bw hbw,
        call_sound b6 cr hcr,
        call_sound b12 header_mode hhm,
        bit_of-truth b13 crc,
        bit_of-truth b14 iq,
        pack_unsigned-from_le (b0 ∷ b1 ∷ b2 ∷ b3 ∷ []) (omega arith),
        bytes_of-map_pos (b4 ∷ b5 ∷ b6 ∷ []) (omega arith),
        pack_unsigned-from_le (b7 ∷ b8 ∷ []) (omega arith),
        pack_unsigned-from_le (b9 ∷ b10 ∷ []) (omega arith),
        pack_signed-from_le 0 (b11 ∷ []) refl (omega arith),
        bytes_of-map_pos (b12 ∷ b13 ∷ b14 ∷ []) (omega arith),
      ))
encode-decode _ c ok_bytes h = ground arith
