-- ===== src/Modulation/LrFhss/RoundTrip.antt =====
-- LrFhssConfig.encode and LrFhssConfig.decode are inverse.
use client_py.Prelude.{All, subst, ◌≡◌, arith, [], ◌∷◌, refl, ◌==◌, ==_iff}
use client_py.Python.Result.{ok, ok_injective, guard_step, >>=-eq-ok}
use client_py.Python.Struct.{Bytes, is_bit, IsByte}
use client_py.Python.Struct.Laws.{
  bit_of-truth, bytes_of-map_pos, pack_unsigned-from_le, pack_signed-from_le, unsigned_step,
  signed_step, bytes_step, is_bit-bit_of, truth-bit_of, from_le-pack_unsigned, from_le-pack_signed,
}
use client_py.Python.Enum.{enum_call, call-int_of, call_sound}
use client_py.Modulation.LrFhss.{LrFhssConfig, encode, decode}
use client_py.Modulation.OtherEnums.{
  lr_fhss_bandwidth_enum, lr_fhss_coding_rate_enum, lr_fhss_grid_enum,
}

pub decode-encode : (c : LrFhssConfig) (bs : Bytes) → encode c ≡ ok bs → decode bs ≡ ok c
unfolding encode
decode-encode c bs h =
    let (freq, h1) = unsigned_step 4 c.freq_hz _ h in
    let (shape, h2) = bytes_step _ _ h1 in
    let (hopping, h3) = bytes_step _ _ h2 in
    let (power, h4) = signed_step 1 c.tx_power_dbm _ h3 in
    subst (λ x. decode x ≡ ok c) (ok_injective _ _ h4)
      (unfold decode in
        simp (
          call-int_of,
          is_bit-bit_of,
          truth-bit_of,
          from_le-pack_unsigned 4 c.freq_hz freq,
          from_le-pack_signed 0 c.tx_power_dbm power,
        ))

pub encode-decode :
    (bs : Bytes) (c : LrFhssConfig) → All IsByte bs → decode bs ≡ ok c → encode c ≡ ok bs
unfolding decode encode
encode-decode (b0 ∷ b1 ∷ b2 ∷ b3 ∷ b4 ∷ b5 ∷ b6 ∷ b7 ∷ b8 ∷ b9 ∷ []) c ok_bytes h =
    let (bw, hbw, h1) = >>=-eq-ok (enum_call b4) _ h in
    let (cr, hcr, h2) = >>=-eq-ok (enum_call b5) _ h1 in
    let (grid, hgrid, h3) = >>=-eq-ok (enum_call b6) _ h2 in
    let (hopping, h4) = guard_step (is_bit b7) _ _ h3 in
    let (reserved, h5) = guard_step (b9 == 0) _ _ h4 in
    subst (λ x. encode x ≡ ok (b0 ∷ b1 ∷ b2 ∷ b3 ∷ b4 ∷ b5 ∷ b6 ∷ b7 ∷ b8 ∷ b9 ∷ []))
      (ok_injective _ _ h5)
      (simp (
        call_sound b4 bw hbw,
        call_sound b5 cr hcr,
        call_sound b6 grid hgrid,
        bit_of-truth b7 hopping,
        (==_iff b9 0).0 reserved,
        pack_unsigned-from_le (b0 ∷ b1 ∷ b2 ∷ b3 ∷ []) (omega arith),
        bytes_of-map_pos (b4 ∷ b5 ∷ b6 ∷ []) (omega arith),
        bytes_of-map_pos (b7 ∷ []) (omega arith),
        pack_signed-from_le 0 (b8 ∷ []) refl (omega arith),
      ))
encode-decode _ c ok_bytes h = ground arith
