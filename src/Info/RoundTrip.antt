-- ===== src/Info/RoundTrip.antt =====
-- Info.decode reads back what Info.encode wrote, whatever bytes follow it.
use client_py.Prelude.{
  ℕ, ◌+◌, ◌%◌, ap₂, ◌≡◌, refl, ap, sym, ◌∙◌, [], ◌∷◌, ◌++◌, leb, leb→le, le→leb, leb-pad, pad,
  length, length-append, slice, slice_middle, get_elem?, get_elem?-append_length, append_assoc,
  some, true, arith, subst,
}
use client_py.Prelude.Int.{pos, pos_part}
use client_py.Python.Result.{ok, value_error, guard_step, ok_injective}
use client_py.Python.Struct.{Bytes, le, pattern_of}
use client_py.Python.Struct.Laws.{
  unsigned_step, signed_step, bytes_step, from_le-pack_unsigned, from_le-pack_signed,
}
use client_py.Info.{Info, encode, decode, decode_uids, max_mcu_uid_len, max_radio_uid_len}

-- The two identifiers behind a header of 36 bytes.
decode_uids-append :
    (header mcu radio extra : Bytes)
    → length header ≡ 36
    → leb (length mcu) max_mcu_uid_len ≡ true
    → leb (length radio) max_radio_uid_len ≡ true
    → decode_uids (header ++ (mcu ++ length radio ∷ (radio ++ extra))) (length mcu)
      ≡ ok (mcu, radio)
unfolding decode_uids
decode_uids-append header mcu radio extra h hm hr =
    let m = length mcu in
    let r = length radio in
    let bs = header ++ (mcu ++ r ∷ (radio ++ extra)) in
    let before_len : bs ≡ (header ++ mcu) ++ r ∷ (radio ++ extra) =
      sym (append_assoc header mcu (r ∷ (radio ++ extra))) in
    let before_radio : bs ≡ ((header ++ mcu) ++ r ∷ []) ++ (radio ++ extra) =
      before_len ∙ sym (append_assoc (header ++ mcu) (r ∷ []) (radio ++ extra)) in
    let at_len : length (header ++ mcu) ≡ 36 + m = omega (arith, length-append header mcu) in
    let at_radio : length ((header ++ mcu) ++ r ∷ []) ≡ 36 + m + 1 =
      omega (arith, length-append (header ++ mcu) (r ∷ [])) in
    let size : length bs ≡ 36 + m + 1 + r + length extra =
      ap length before_radio
      ∙ omega (
        arith,
        at_radio,
        length-append ((header ++ mcu) ++ r ∷ []) (radio ++ extra),
        length-append radio extra,
      ) in
    let whole_len : leb (36 + m + 1) (length bs) ≡ true = le→leb _ _ (omega arith) in
    let whole_radio : leb (36 + m + 1 + r) (length bs) ≡ true = le→leb _ _ (omega arith) in
    let radio_len : get_elem? bs (36 + m) ≡ some r =
      ap₂ get_elem? before_len (sym at_len)
      ∙ get_elem?-append_length (header ++ mcu) r (radio ++ extra) in
    let mcu_slice : slice bs 36 (36 + m) ≡ mcu =
      subst (λ k. slice bs k (k + m) ≡ mcu) h (slice_middle header mcu (r ∷ (radio ++ extra))) in
    let radio_slice : slice bs (36 + m + 1) (36 + m + 1 + r) ≡ radio =
      subst (λ k. slice bs k (k + r) ≡ radio) at_radio
        (subst
          (λ l.
            slice l (length ((header ++ mcu) ++ r ∷ [])) (length ((header ++ mcu) ++ r ∷ []) + r)
            ≡ radio)
          (sym before_radio) (slice_middle ((header ++ mcu) ++ r ∷ []) radio extra)) in
    simp (hm, hr, whole_len, whole_radio, radio_len, mcu_slice, radio_slice)

regroup : (h m r e : Bytes) (l : ℕ) → h ++ m ++ l ∷ [] ++ r ++ e ≡ h ++ (m ++ l ∷ (r ++ e))
regroup h m r e l = simp append_assoc

-- The 36 bytes before mcu_uid.
header_of : Info → Bytes
header_of i =
    le 1 (pos_part i.proto_major)
    ++ le 1 (pos_part i.proto_minor)
    ++ le 1 (pos_part i.fw_major)
    ++ le 1 (pos_part i.fw_minor)
    ++ le 1 (pos_part i.fw_patch)
    ++ le 2 (pos_part i.radio_chip_id)
    ++ le 8 (pos_part i.capability_bitmap)
    ++ le 2 (pos_part i.supported_sf_bitmap)
    ++ le 2 (pos_part i.supported_bw_bitmap)
    ++ le 2 (pos_part i.max_payload_bytes)
    ++ le 2 (pos_part i.rx_queue_capacity)
    ++ le 2 (pos_part i.tx_queue_capacity)
    ++ le 4 (pos_part i.freq_min_hz)
    ++ le 4 (pos_part i.freq_max_hz)
    ++ le 1 (pattern_of 1 i.tx_power_min_dbm)
    ++ le 1 (pattern_of 1 i.tx_power_max_dbm)
    ++ le 1 (length i.mcu_uid)

-- What Info.encode writes for an Info, Info.decode reads back as that Info, also with more bytes
-- behind it.
pub decode-encode_info :
    (i : Info) (bs extra : Bytes) → encode i ≡ ok bs → decode (bs ++ extra) ≡ ok i
unfolding encode header_of
decode-encode_info i bs extra h =
    let (mcu_fits, h1) = guard_step (leb (length i.mcu_uid) max_mcu_uid_len) value_error _ h in
    let (radio_fits, h2) =
      guard_step (leb (length i.radio_uid) max_radio_uid_len) value_error _ h1 in
    let (proto_major, h3) = unsigned_step 1 i.proto_major _ h2 in
    let (proto_minor, h4) = unsigned_step 1 i.proto_minor _ h3 in
    let (fw_major, h5) = unsigned_step 1 i.fw_major _ h4 in
    let (fw_minor, h6) = unsigned_step 1 i.fw_minor _ h5 in
    let (fw_patch, h7) = unsigned_step 1 i.fw_patch _ h6 in
    let (radio_chip_id, h8) = unsigned_step 2 i.radio_chip_id _ h7 in
    let (capability_bitmap, h9) = unsigned_step 8 i.capability_bitmap _ h8 in
    let (supported_sf_bitmap, h10) = unsigned_step 2 i.supported_sf_bitmap _ h9 in
    let (supported_bw_bitmap, h11) = unsigned_step 2 i.supported_bw_bitmap _ h10 in
    let (max_payload_bytes, h12) = unsigned_step 2 i.max_payload_bytes _ h11 in
    let (rx_queue_capacity, h13) = unsigned_step 2 i.rx_queue_capacity _ h12 in
    let (tx_queue_capacity, h14) = unsigned_step 2 i.tx_queue_capacity _ h13 in
    let (freq_min_hz, h15) = unsigned_step 4 i.freq_min_hz _ h14 in
    let (freq_max_hz, h16) = unsigned_step 4 i.freq_max_hz _ h15 in
    let (tx_power_min_dbm, h17) = signed_step 1 i.tx_power_min_dbm _ h16 in
    let (tx_power_max_dbm, h18) = signed_step 1 i.tx_power_max_dbm _ h17 in
    let (mcu_len, h19) = unsigned_step 1 (pos (length i.mcu_uid)) _ h18 in
    let (radio_len, h20) = bytes_step _ _ h19 in
    let tail = i.mcu_uid ++ length i.radio_uid ∷ (i.radio_uid ++ extra) in
    let whole : bs ++ extra ≡ header_of i ++ tail =
      ap (λ l. l ++ extra) (sym (ok_injective _ _ h20))
      ∙ regroup (header_of i) i.mcu_uid i.radio_uid extra (length i.radio_uid) in
    let n = length tail in
    let len_byte : length i.mcu_uid % 256 ≡ length i.mcu_uid =
      omega (arith, leb→le (length i.mcu_uid) max_mcu_uid_len mcu_fits) in
    let uids : decode_uids (header_of i ++ tail) (length i.mcu_uid % 256)
        ≡ ok (i.mcu_uid, i.radio_uid) =
      subst (λ k. decode_uids (header_of i ++ tail) k ≡ ok (i.mcu_uid, i.radio_uid)) (sym len_byte)
        (decode_uids-append (header_of i) i.mcu_uid i.radio_uid extra refl mcu_fits radio_fits) in
    rw whole (
      unfold decode in
      simp (
        le→leb 37 (pad 36 n)
            (omega (arith, length-append i.mcu_uid (length i.radio_uid ∷ (i.radio_uid ++ extra)))),
        uids,
        leb-pad 1 36 n (omega arith),
        leb-pad 2 36 n (omega arith),
        leb-pad 3 36 n (omega arith),
        leb-pad 4 36 n (omega arith),
        leb-pad 5 36 n (omega arith),
        leb-pad 7 36 n (omega arith),
        leb-pad 15 36 n (omega arith),
        leb-pad 17 36 n (omega arith),
        leb-pad 19 36 n (omega arith),
        leb-pad 21 36 n (omega arith),
        leb-pad 23 36 n (omega arith),
        leb-pad 25 36 n (omega arith),
        leb-pad 29 36 n (omega arith),
        leb-pad 33 36 n (omega arith),
        leb-pad 34 36 n (omega arith),
        leb-pad 35 36 n (omega arith),
        from_le-pack_unsigned 1 i.proto_major proto_major,
        from_le-pack_unsigned 1 i.proto_minor proto_minor,
        from_le-pack_unsigned 1 i.fw_major fw_major,
        from_le-pack_unsigned 1 i.fw_minor fw_minor,
        from_le-pack_unsigned 1 i.fw_patch fw_patch,
        from_le-pack_unsigned 2 i.radio_chip_id radio_chip_id,
        from_le-pack_unsigned 8 i.capability_bitmap capability_bitmap,
        from_le-pack_unsigned 2 i.supported_sf_bitmap supported_sf_bitmap,
        from_le-pack_unsigned 2 i.supported_bw_bitmap supported_bw_bitmap,
        from_le-pack_unsigned 2 i.max_payload_bytes max_payload_bytes,
        from_le-pack_unsigned 2 i.rx_queue_capacity rx_queue_capacity,
        from_le-pack_unsigned 2 i.tx_queue_capacity tx_queue_capacity,
        from_le-pack_unsigned 4 i.freq_min_hz freq_min_hz,
        from_le-pack_unsigned 4 i.freq_max_hz freq_max_hz,
        from_le-pack_signed 0 i.tx_power_min_dbm tx_power_min_dbm,
        from_le-pack_signed 0 i.tx_power_max_dbm tx_power_max_dbm,
      ))
