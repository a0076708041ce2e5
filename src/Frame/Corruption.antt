-- ===== src/Frame/Corruption.antt =====
-- The CRC check of decode_frame: what it accepts, and what it refuses.
use client_py.Prelude.{
  ℕ, ◌≡◌, ◌≢◌, refl, ap, sym, ◌∙◌, ◌≤◌, [], ◌∷◌, ◌++◌, ◌==◌, ==_iff, ==_ne, leb, leb→le, leb-pad,
  length, All, All-split, arith, some, length-append, subst,
}
use client_py.Python.Result.{
  ok, err, frame_crc_error, frame_too_short_error, guard_step, ok_injective,
}
use client_py.Python.Struct.{Bytes, IsByte, from_le, le}
use client_py.Python.Struct.Laws.{le-from_le}
use client_py.Crc.{crc16}
use client_py.Crc.Detection.{crc16_detects_byte}
use client_py.Frame.{Cobs, Frame, decode_frame, parse_frame}
use client_py.Frame.RoundTrip.{
  Fits, frame_body, sealed_body, frame_body-IsByte, parse_frame_split, from_le_sealed,
}

-- A decoded body of three bytes or more whose trailer is not its CRC is refused with FrameCrcError.
pub parse_frame_crc_error :
    (body : Bytes) (x y : ℕ)
    → 3 ≤ length body
    → crc16 body ≢ from_le (x ∷ y ∷ [])
    → parse_frame (body ++ x ∷ y ∷ []) ≡ err frame_crc_error
parse_frame_crc_error body x y h ne = simp (parse_frame_split body x y h, ==_ne _ _ ne)

-- If COBS decoding gives the body of an encoded frame with one byte of type, tag or payload changed,
-- and the CRC of the frame, decode_frame raises FrameCrcError.
pub decode_frame_detects_byte :
    (cobs : Cobs) (f : Frame) (received front back : Bytes) (a b : ℕ)
    → Fits f
    → frame_body f ≡ front ++ a ∷ back
    → IsByte b
    → a ≢ b
    → cobs.decode received ≡ some ((front ++ b ∷ back) ++ le 2 (crc16 (frame_body f)))
    → decode_frame cobs received ≡ err frame_crc_error
unfolding decode_frame
decode_frame_detects_byte cobs f received front back a b fits split hb ne h =
    let (hf, (ha, hk)) =
      All-split IsByte front (a ∷ back) (subst (All IsByte) split (frame_body-IsByte f fits)) in
    let long : 3 ≤ length (front ++ b ∷ back) =
      omega
        (arith, length-append front (a ∷ back), length-append front (b ∷ back), ap length split) in
    rw (h, decode_frame)
      (parse_frame_crc_error (front ++ b ∷ back) _ _ long λ e.
        crc16_detects_byte front back a b hf hk ha hb ne
          (sym (ap crc16 split) ∙ sym (from_le_sealed f fits) ∙ sym e))

-- The last two elements of a list.
split_last :
    (xs : Bytes) → 2 ≤ length xs → (body : Bytes) × (x : ℕ) × (y : ℕ) × (xs ≡ body ++ x ∷ y ∷ [])
split_last [] h = absurd (omega arith)
split_last (a ∷ []) h = absurd (omega arith)
split_last (a ∷ b ∷ []) h = ([], a, b, refl)
split_last (a ∷ b ∷ c ∷ xs) h =
    let (body, x, y, e) = split_last (b ∷ c ∷ xs) (omega arith) in
    (a ∷ body, x, y, ap (λ l. a ∷ l) e)

parse_frame_long : (decoded : Bytes) (f : Frame) → parse_frame decoded ≡ ok f → 5 ≤ length decoded
unfolding parse_frame
parse_frame_long decoded f h =
    leb→le 5 _ (guard_step (leb 5 (length decoded)) frame_too_short_error _ h).0

parse_frame_sound_split :
    (body : Bytes) (x y : ℕ) (f : Frame)
    → 3 ≤ length body
    → All IsByte (body ++ x ∷ y ∷ [])
    → parse_frame (body ++ x ∷ y ∷ []) ≡ ok f
    → body ++ x ∷ y ∷ [] ≡ sealed_body f
parse_frame_sound_split [] x y f long bytes h = absurd (omega arith)
parse_frame_sound_split (t ∷ []) x y f long bytes h = absurd (omega arith)
parse_frame_sound_split (t ∷ g ∷ []) x y f long bytes h = absurd (omega arith)
parse_frame_sound_split (t ∷ g ∷ k ∷ payload) x y f long bytes h =
    let body : Bytes = t ∷ g ∷ k ∷ payload in
    let (crc, h1) =
      guard_step (crc16 body == from_le (x ∷ y ∷ [])) frame_crc_error _
        (sym (parse_frame_split body x y long) ∙ h) in
    let whole = ok_injective _ f (simp (leb-pad 3 3 (length payload) (omega arith)) at h1) in
    let trailer : le 2 (crc16 body) ≡ x ∷ y ∷ [] =
      ap (le 2) ((==_iff _ _).0 crc)
      ∙ le-from_le (x ∷ y ∷ []) (All-split IsByte body (x ∷ y ∷ []) bytes).1 in
    let front : t ∷ le 2 (from_le (g ∷ k ∷ [])) ++ payload ≡ body =
      ap (λ l. t ∷ l ++ payload) (le-from_le (g ∷ k ∷ []) (omega arith)) in
    subst (λ r. body ++ x ∷ y ∷ [] ≡ sealed_body r) whole
      (sym (ap (λ b. b ++ le 2 (crc16 b)) front ∙ ap (λ l. body ++ l) trailer))

-- A decoded body is accepted only if it is the sealed body of the frame that is returned: its type,
-- tag and payload with the CRC of these behind them.
pub parse_frame_sound :
    (decoded : Bytes) (f : Frame)
    → All IsByte decoded
    → parse_frame decoded ≡ ok f
    → decoded ≡ sealed_body f
parse_frame_sound decoded f bytes h =
    let long : 5 ≤ length decoded = parse_frame_long decoded f h in
    let (body, x, y, e) = split_last decoded (omega arith) in
    let long' : 3 ≤ length body = omega (arith, ap length e, length-append body (x ∷ y ∷ [])) in
    e
    ∙ parse_frame_sound_split body x y f long' (subst (All IsByte) e bytes)
        (subst (λ d. parse_frame d ≡ ok f) e h)
