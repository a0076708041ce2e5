-- ===== src/Frame/Stream/Replay.antt =====
-- iter_frames over a recording of encoded frames.
use client_py.Prelude.{
  ℕ, ◌+◌, ◌≡◌, ◌≢◌, refl, ap, sym, ◌∙◌, ◌<◌, List, [], ◌∷◌, ◌++◌, ==_ne, lt→ltb, length, All, arith,
  Option, none, append_assoc, length-append, slice, slice_middle, subst,
}
use client_py.Prelude.Int.{pos}
use client_py.Python.Result.{Error, ok, ok_injective}
use client_py.Python.Struct.{Bytes}
use client_py.Frame.{Cobs, IsCobs, Frame, encode_frame, decode_frame, iter_loop, iter_frames}
use client_py.Frame.RoundTrip.{Fits, decode_frame-encode_frame}
use client_py.Frame.Stream.{NonZero}

length_pos : (xs : Bytes) → xs ≢ [] → 0 < length xs
length_pos [] h = absurd (h refl)
length_pos (x ∷ xs) h = omega arith

module _ (cobs : Cobs) where
  iter_loop_skip :
      (bytes inner rest : Bytes) (i start : ℕ)
      → All NonZero inner
      → iter_loop cobs bytes i start (inner ++ rest)
        ≡ iter_loop cobs bytes (i + length inner) start rest
  unfolding iter_loop
  iter_loop_skip bytes [] rest i start h = ap (λ j. iter_loop cobs bytes j start rest) (omega arith)
  iter_loop_skip bytes (b ∷ inner) rest i start h = rw (==_ne b 0 h.0) (
      iter_loop_skip bytes inner rest (i + 1) start h.1
      ∙ ap (λ j. iter_loop cobs bytes j start rest) (omega arith))

  iter_loop_zero :
      (bytes rest : Bytes) (i start : ℕ) (f : Frame)
      → start < i
      → decode_frame cobs (slice bytes start i) ≡ ok f
      → iter_loop cobs bytes i start (0 ∷ rest)
        ≡ (let next = iter_loop cobs bytes (i + 1) (i + 1) rest in (f ∷ next.0, next.1))
  unfolding iter_loop
  iter_loop_zero bytes rest i start f h d = rw (lt→ltb start i h, d)

  -- `wires` holds the encodings of the frames, one after the other.
  pub data Recorded : List Frame → Bytes → Type 0 where
    nothing : Recorded [] []
    frame_first :
        (f : Frame) {fs : List Frame} (wire wires : Bytes)
        → Fits f
        → encode_frame cobs (pos f.type_id) (pos f.tag) f.payload ≡ ok wire
        → Recorded fs wires
        → Recorded (f ∷ fs) (wire ++ wires)

  iter_loop-Recorded :
      (laws : IsCobs cobs) (done : Bytes) {fs : List Frame} {wires : Bytes}
      → Recorded fs wires
      → iter_loop cobs (done ++ wires) (length done) (length done) wires ≡ (fs, none)
  iter_loop-Recorded laws done nothing = unfold iter_loop in refl
  iter_loop-Recorded laws done (frame_first f {fs} wire wires fits e r) =
      let (inner, e', nz, ne, d) = decode_frame-encode_frame cobs f laws fits in
      let n = length done + length inner in
      let split : wire ++ wires ≡ inner ++ 0 ∷ wires =
        ap (λ w. w ++ wires) (ok_injective _ _ (sym e ∙ e')) ∙ append_assoc inner (0 ∷ []) wires in
      let past = done ++ inner ++ 0 ∷ [] in
      let bytes = done ++ (inner ++ 0 ∷ wires) in
      let whole : (done ++ inner ++ 0 ∷ []) ++ wires ≡ bytes =
        append_assoc (done ++ inner) (0 ∷ []) wires ∙ append_assoc done inner (0 ∷ wires) in
      let size : length (done ++ inner ++ 0 ∷ []) ≡ n + 1 =
        omega (arith, length-append (done ++ inner) (0 ∷ []), length-append done inner) in
      let later : iter_loop cobs bytes (n + 1) (n + 1) wires ≡ (fs, none) =
        subst (λ k. iter_loop cobs bytes k k wires ≡ (fs, none)) size
          (subst (λ b. iter_loop cobs b (length past) (length past) wires ≡ (fs, none)) whole
            (iter_loop-Recorded laws (done ++ inner ++ 0 ∷ []) r)) in
      rw split (
        iter_loop_skip bytes inner (0 ∷ wires) (length done) (length done) nz
        ∙ iter_loop_zero bytes wires n (length done) f (omega (arith, length_pos inner ne))
            (ap (decode_frame cobs) (slice_middle done inner (0 ∷ wires)) ∙ d)
        ∙ ap (λ (p : List Frame × Option Error). (f ∷ p.0, p.1)) later)

  -- A recording of encoded frames is replayed as these frames, in order and with no error.
  pub iter_frames-Recorded :
      (fs : List Frame) (wires : Bytes)
      → IsCobs cobs
      → Recorded fs wires
      → iter_frames cobs wires ≡ (fs, none)
  unfolding iter_frames
  iter_frames-Recorded fs wires laws r = iter_loop-Recorded laws [] r
