-- ===== src/Modulation/Flrc/RoundTrip.antt =====
-- FlrcConfig.encode and FlrcConfig.decode are inverse.
use client_py.Prelude.{All, subst, ◌≡◌, arith, [], ◌∷◌, refl}
use client_py.Python.Result.{ok, ok_injective, >>=-eq-ok}
use client_py.Python.Struct.{Bytes, IsByte}
use client_py.Python.Struct.Laws.{
  bytes_of-map_pos, pack_unsigned-from_le, pack_signed-from_le, unsigned_step, signed_step,
  bytes_step, from_le-pack_unsigned, from_le-pack_signed,
}
use client_py.Python.Enum.{enum_call, call-int_of, call_sound}
use client_py.Modulation.Flrc.{FlrcConfig, encode, decode}
use client_py.Modulation.OtherEnums.{
  flrc_bitrate_enum, flrc_coding_rate_enum, flrc_bt_enum, flrc_preamble_len_enum,
}

pub decode-encode : (c : FlrcConfig) (bs : Bytes) → encode c ≡ ok bs → decode bs ≡ ok c
unfolding encode
decode-encode c bs h =
    let (freq, h1) = unsigned_step 4 c.freq_hz _ h in
    let (shape, h2) = bytes_step _ _ h1 in
    let (sync, h3) = unsigned_step 4 c.sync_word _ h2 in
    let (power, h4) = signed_step 1 c.tx_power_dbm _ h3 in
    subst (λ x. decode x ≡ ok c) (ok_injective _ _ h4)
      (unfold decode in
        simp (
          call-int_of,
          from_le-pack_unsigned 4 c.freq_hz freq,
          from_le-pack_unsigned 4 c.sync_word sync,
          from_le-pack_signed 0 c.tx_power_dbm power,
        ))

pub encode-decode :
    (bs : Bytes) (c : FlrcConfig) → All IsByte bs → decode bs ≡ ok c → encode c ≡ ok bs
unfolding decode encode
encode-decode (b0 ∷ b1 ∷ b2 ∷ b3 ∷ b4 ∷ b5 ∷ b6 ∷ b7 ∷ b8 ∷ b9 ∷ b10 ∷ b11 ∷ b12 ∷ []) c ok_bytes
      h =
    let (bitrate, hbitrate, h1) = >>=-eq-ok (enum_call b4) _ h in
    let (cr, hcr, h2) = >>=-eq-ok (enum_call b5) _ h1 in
    let (bt, hbt, h3) = >>=-eq-ok (enum_call b6) _ h2 in
    let (preamble, hpreamble, h4) = >>=-eq-ok (enum_call b7) _ h3 in
    subst
      (λ x. encode x ≡ ok (b0 ∷ b1 ∷ b2 ∷ b3 ∷ b4 ∷ b5 ∷ b6 ∷ b7 ∷ b8 ∷ b9 ∷ b10 ∷ b11 ∷ b12 ∷ []))
      (ok_injective _ _ h4)
      (simp (
        call_sound b4 bitrate hbitrate,
        call_sound b5 cr hcr,
        call_sound b6 bt hbt,
        call_sound b7 preamble hpreamble,
        pack_unsigned-from_le (b0 ∷ b1 ∷ b2 ∷ b3 ∷ []) (omega arith),
        bytes_of-map_pos (b4 ∷ b5 ∷ b6 ∷ b7 ∷ []) (omega arith),
        pack_unsigned-from_le (b8 ∷ b9 ∷ b10 ∷ b11 ∷ []) (omega arith),
        pack_signed-from_le 0 (b12 ∷ []) refl (omega arith),
      ))
encode-decode _ c ok_bytes h = ground arith
