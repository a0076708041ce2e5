-- ===== src/Modulation/RoundTrip.antt =====
-- SET_CONFIG payloads: encode_modulation and decode_modulation are inverse.
use client_py.Prelude.{◌≡◌, ◌↔◌, All, arith, [], ◌∷◌}
use client_py.Python.Result.{ok, >>=-eq-ok, ok_injective}
use client_py.Python.Struct.{Bytes, IsByte, bytes_of, byte_of, in_unsigned}
use client_py.Modulation.{
  Modulation, lora, fsk, lr_fhss, flrc, encode_modulation, decode_modulation,
}
use client_py.Modulation.LoRa
use client_py.Modulation.Fsk
use client_py.Modulation.LrFhss
use client_py.Modulation.Flrc
use client_py.Modulation.LoRa.RoundTrip.{decode-encode as lora_back, encode-decode as lora_forth}
use client_py.Modulation.Fsk.RoundTrip.{decode-encode as fsk_back, encode-decode as fsk_forth}
use client_py.Modulation.LrFhss.RoundTrip.{
  decode-encode as lr_fhss_back, encode-decode as lr_fhss_forth,
}
use client_py.Modulation.Flrc.RoundTrip.{decode-encode as flrc_back, encode-decode as flrc_forth}

-- What `encode_modulation` writes for a config, `decode_modulation` reads back as that config.
pub decode_modulation-encode_modulation :
    (m : Modulation) (bs : Bytes) → encode_modulation m ≡ ok bs → decode_modulation bs ≡ ok m
unfolding encode_modulation decode_modulation bytes_of byte_of in_unsigned
decode_modulation-encode_modulation (lora c) bs h =
    let (params, e, hb) = >>=-eq-ok (LoRa.encode c) _ h in
    rw (← ok_injective _ _ hb, lora_back c params e)
decode_modulation-encode_modulation (fsk c) bs h =
    let (params, e, hb) = >>=-eq-ok (Fsk.encode c) _ h in
    rw (← ok_injective _ _ hb, fsk_back c params e)
decode_modulation-encode_modulation (lr_fhss c) bs h =
    let (params, e, hb) = >>=-eq-ok (LrFhss.encode c) _ h in
    rw (← ok_injective _ _ hb, lr_fhss_back c params e)
decode_modulation-encode_modulation (flrc c) bs h =
    let (params, e, hb) = >>=-eq-ok (Flrc.encode c) _ h in
    rw (← ok_injective _ _ hb, flrc_back c params e)

-- Every byte string that `decode_modulation` accepts is the one that `encode_modulation` writes for
-- the config it returns.
pub encode_modulation-decode_modulation :
    (bs : Bytes) (m : Modulation)
    → All IsByte bs
    → decode_modulation bs ≡ ok m
    → encode_modulation m ≡ ok bs
unfolding decode_modulation encode_modulation bytes_of byte_of in_unsigned
encode_modulation-decode_modulation [] m k h = cc
encode_modulation-decode_modulation (b ∷ bs) (lora c) k h = ground (arith, lora_forth bs c k.1)
encode_modulation-decode_modulation (b ∷ bs) (fsk c) k h = ground (arith, fsk_forth bs c k.1)
encode_modulation-decode_modulation (b ∷ bs) (lr_fhss c) k h =
    ground (arith, lr_fhss_forth bs c k.1)
encode_modulation-decode_modulation (b ∷ bs) (flrc c) k h = ground (arith, flrc_forth bs c k.1)

-- A byte string is what encode_modulation writes for a configuration exactly if decode_modulation reads
-- that configuration from it.
pub decode_modulation_iff :
    (bs : Bytes) (m : Modulation)
    → All IsByte bs
    → (encode_modulation m ≡ ok bs) ↔ (decode_modulation bs ≡ ok m)
decode_modulation_iff bs m k =
    (decode_modulation-encode_modulation m bs, encode_modulation-decode_modulation bs m k)
