-- ===== src/Modulation/Fsk/RoundTrip.antt =====
-- FskConfig.encode and FskConfig.decode are inverse.
use client_py.Prelude.{
  pad, leb-pad, ==-pad, ==-pad_sound, All, subst, ◌≡◌, arith, [], ◌∷◌, take, length, ◌+◌, ◌-◌,
  take-length, ◌==◌, leb, ◌∙◌, ap,
}
use client_py.Python.Result.{ok, value_error, ok_injective, guard_step}
use client_py.Python.Struct.{Bytes, IsByte}
use client_py.Python.Struct.Laws.{
  bytes_of-map_pos, pack_unsigned-from_le, pos-pos_part, unsigned_step, bytes_step,
  from_le-pack_unsigned,
}
use client_py.Modulation.Fsk.{FskConfig, encode, decode}

-- bytes(data[16 : 16 + sync_word_len])
take_all : (sync : Bytes) → take (16 + length sync - 16) sync ≡ sync
take_all sync = ap (λ k. take k sync) (omega arith) ∙ take-length sync

pub decode-encode : (c : FskConfig) (bs : Bytes) → encode c ≡ ok bs → decode bs ≡ ok c
unfolding encode
decode-encode c bs h =
    let n = length c.sync_word in
    let (short, h0) = guard_step (leb (length c.sync_word) 8) value_error _ h in
    let (freq, h1) = unsigned_step 4 c.freq_hz _ h0 in
    let (bitrate, h2) = unsigned_step 4 c.bitrate_bps _ h1 in
    let (freq_dev, h3) = unsigned_step 4 c.freq_dev_hz _ h2 in
    let (rx_bw, h4) = bytes_step _ _ h3 in
    let (preamble, h5) = unsigned_step 2 c.preamble_len _ h4 in
    let (sync, h6) = bytes_step _ _ h5 in
    subst (λ x. decode x ≡ ok c) (ok_injective _ _ h6)
      (unfold decode in
        simp (
          leb-pad 16 16 n (omega arith),
          leb-pad 4 16 n (omega arith),
          leb-pad 8 16 n (omega arith),
          leb-pad 12 16 n (omega arith),
          leb-pad 15 16 n (omega arith),
          ==-pad 16 n,
          short,
          take_all c.sync_word,
          from_le-pack_unsigned 4 c.freq_hz freq,
          from_le-pack_unsigned 4 c.bitrate_bps bitrate,
          from_le-pack_unsigned 4 c.freq_dev_hz freq_dev,
          pos-pos_part c.rx_bw rx_bw.0,
          from_le-pack_unsigned 2 c.preamble_len preamble,
        ))

pub encode-decode :
    (bs : Bytes) (c : FskConfig) → All IsByte bs → decode bs ≡ ok c → encode c ≡ ok bs
unfolding decode encode
encode-decode
      (b0 ∷ b1 ∷ b2 ∷ b3 ∷ b4 ∷ b5 ∷ b6 ∷ b7 ∷ b8 ∷ b9 ∷ b10 ∷ b11 ∷ b12 ∷ b13 ∷ b14 ∷ b15 ∷ sync) c
      ok_bytes h =
    let n = length sync in
    let h1 =
      simp
        (
          leb-pad 16 16 n (omega arith),
          leb-pad 4 16 n (omega arith),
          leb-pad 8 16 n (omega arith),
          leb-pad 12 16 n (omega arith),
          leb-pad 15 16 n (omega arith),
        )
        at h in
    let (short, h2) = guard_step (leb b15 8) _ _ h1 in
    let (exact, h3) = guard_step (pad 16 n == 16 + b15) _ _ h2 in
    let e : n ≡ b15 = ==-pad_sound 16 n b15 exact in
    subst
      (λ x.
        encode x
        ≡ ok (
            b0 ∷ b1 ∷ b2 ∷ b3 ∷ b4 ∷ b5 ∷ b6 ∷ b7 ∷ b8 ∷ b9 ∷ b10 ∷ b11 ∷ b12 ∷ b13 ∷ b14 ∷ b15
            ∷ sync))
      (ok_injective _ _ h3)
      (simp (
        ← e,
        take_all sync,
        rw (← e) at short,
        pack_unsigned-from_le (b0 ∷ b1 ∷ b2 ∷ b3 ∷ []) (omega arith),
        pack_unsigned-from_le (b4 ∷ b5 ∷ b6 ∷ b7 ∷ []) (omega arith),
        pack_unsigned-from_le (b8 ∷ b9 ∷ b10 ∷ b11 ∷ []) (omega arith),
        bytes_of-map_pos (b12 ∷ []) (omega arith),
        pack_unsigned-from_le (b13 ∷ b14 ∷ []) (omega arith),
        bytes_of-map_pos (n ∷ []) (omega arith),
      ))
encode-decode _ c ok_bytes h = ground arith
