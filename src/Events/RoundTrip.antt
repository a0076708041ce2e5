-- ===== src/Events/RoundTrip.antt =====
-- The payloads of SET_CONFIG responses, TX_DONE and ERR: encoding and decoding are inverse.
use client_py.Prelude.{
  ◌↔◌, ◌≡◌, ap, arith, subst, All, [], ◌∷◌, length, leb-pad, Bool-cases, inl, inr, ltb, ltb→lt,
}
use client_py.Python.Result.{ok, >>=-eq-ok, ok_injective}
use client_py.Python.Struct.{Bytes, IsByte, pack_unsigned, in_unsigned}
use client_py.Python.Struct.Laws.{
  from_le-le, unsigned_step, bytes_step, from_le-pack_unsigned, pack_unsigned-from_le,
  bytes_of-map_pos,
}
use client_py.Python.Enum.{enum_call, call-int_of, call_sound}
use client_py.Errors.{CodeOrInt, from_u16, int_of_code}
use client_py.Modulation.{encode_modulation, decode_modulation}
use client_py.Modulation.RoundTrip.{
  decode_modulation-encode_modulation, encode_modulation-decode_modulation,
}
use client_py.Events.{
  SetConfigResult, encode_set_config_result, decode_set_config_result, TxDone, encode_tx_done,
  decode_tx_done, encode_err_payload, decode_err_payload,
}
use client_py.Events.Enums.{set_config_result_code_enum, owner_enum, tx_result_enum}

-- What SetConfigResult.encode writes, SetConfigResult.decode reads back.
pub decode-encode_set_config_result :
    (r : SetConfigResult) (bs : Bytes)
    → encode_set_config_result r ≡ ok bs
    → decode_set_config_result bs ≡ ok r
unfolding encode_set_config_result
decode-encode_set_config_result r bs h =
    let (head, h1) = bytes_step _ _ h in
    let (current, e, h2) = >>=-eq-ok (encode_modulation r.current) _ h1 in
    subst (λ x. decode_set_config_result x ≡ ok r) (ok_injective _ _ h2)
      (unfold decode_set_config_result in
        simp (
          leb-pad 2 2 (length current) (omega arith),
          call-int_of,
          decode_modulation-encode_modulation r.current current e,
        ))

-- A payload that SetConfigResult.decode accepts is what SetConfigResult.encode writes for the result.
pub encode-decode_set_config_result :
    (bs : Bytes) (r : SetConfigResult)
    → All IsByte bs
    → decode_set_config_result bs ≡ ok r
    → encode_set_config_result r ≡ ok bs
unfolding decode_set_config_result encode_set_config_result
encode-decode_set_config_result [] r k h = ground arith
encode-decode_set_config_result (b ∷ []) r k h = ground arith
encode-decode_set_config_result (b0 ∷ b1 ∷ bs) r k h =
    let h0 = simp (leb-pad 2 2 (length bs) (omega arith)) at h in
    let (result, hresult, h1) = >>=-eq-ok (enum_call b0) _ h0 in
    let (owner, howner, h2) = >>=-eq-ok (enum_call b1) _ h1 in
    let (current, hcurrent, h3) = >>=-eq-ok (decode_modulation bs) _ h2 in
    subst (λ x. encode_set_config_result x ≡ ok (b0 ∷ b1 ∷ bs)) (ok_injective _ _ h3)
      (simp (
        call_sound b0 result hresult,
        call_sound b1 owner howner,
        bytes_of-map_pos (b0 ∷ b1 ∷ []) (omega arith),
        encode_modulation-decode_modulation bs current k.1.1 hcurrent,
      ))

-- A byte string is what SetConfigResult.encode writes for a result exactly if SetConfigResult.decode reads
-- that result from it.
pub decode_set_config_result_iff :
    (bs : Bytes) (r : SetConfigResult)
    → All IsByte bs
    → (encode_set_config_result r ≡ ok bs) ↔ (decode_set_config_result bs ≡ ok r)
decode_set_config_result_iff bs r k =
    (decode-encode_set_config_result r bs, encode-decode_set_config_result bs r k)

-- What TxDone.encode writes, TxDone.decode reads back.
pub decode-encode_tx_done :
    (t : TxDone) (bs : Bytes) → encode_tx_done t ≡ ok bs → decode_tx_done bs ≡ ok t
unfolding encode_tx_done
decode-encode_tx_done t bs h =
    let (head, h1) = bytes_step _ _ h in
    let (airtime, h2) = unsigned_step 4 t.airtime_us _ h1 in
    subst (λ x. decode_tx_done x ≡ ok t) (ok_injective _ _ h2)
      (unfold decode_tx_done in simp (call-int_of, from_le-pack_unsigned 4 t.airtime_us airtime))

-- A payload that TxDone.decode accepts is what TxDone.encode writes for the result.
pub encode-decode_tx_done :
    (bs : Bytes) (t : TxDone) → All IsByte bs → decode_tx_done bs ≡ ok t → encode_tx_done t ≡ ok bs
unfolding decode_tx_done encode_tx_done
encode-decode_tx_done (b0 ∷ b1 ∷ b2 ∷ b3 ∷ b4 ∷ []) t k h =
    let (result, hresult, h1) = >>=-eq-ok (enum_call b0) _ h in
    subst (λ x. encode_tx_done x ≡ ok (b0 ∷ b1 ∷ b2 ∷ b3 ∷ b4 ∷ [])) (ok_injective _ _ h1)
      (simp (
        call_sound b0 result hresult,
        bytes_of-map_pos (b0 ∷ []) (omega arith),
        pack_unsigned-from_le (b1 ∷ b2 ∷ b3 ∷ b4 ∷ []) (omega arith),
      ))
encode-decode_tx_done _ t k h = ground arith

-- A byte string is what TxDone.encode writes for a TX's end exactly if TxDone.decode reads it back.
pub decode_tx_done_iff :
    (bs : Bytes) (t : TxDone)
    → All IsByte bs
    → (encode_tx_done t ≡ ok bs) ↔ (decode_tx_done bs ≡ ok t)
decode_tx_done_iff bs t k = (decode-encode_tx_done t bs, encode-decode_tx_done bs t k)

-- The ERR payload of any code that two bytes can hold, listed or not, is read back as its number; a
-- listed number comes back as the named code.
pub decode-encode_err_payload :
    (code : CodeOrInt) (bs : Bytes)
    → encode_err_payload code ≡ ok bs
    → decode_err_payload bs ≡ ok (from_u16 (int_of_code code))
unfolding encode_err_payload decode_err_payload pack_unsigned in_unsigned
decode-encode_err_payload code bs h =
    let n = int_of_code code in
    elim (Bool-cases (ltb n 65536)) [
      | inl fits ↦
          subst (λ x. decode_err_payload x ≡ ok (from_u16 n)) (ok_injective _ _ (rw fits at h))
            (ap (λ k. ok (from_u16 k)) (from_le-le 2 n (ltb→lt n 65536 fits)))
      | inr large ↦ cc (rw large at h)
    ]
