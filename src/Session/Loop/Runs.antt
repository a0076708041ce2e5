-- ===== src/Session/Loop/Runs.antt =====
-- The reader loop ends with the reads, and it dispatches a recording frame by frame.
use client_py.Prelude.{
  ℕ, zero, suc, ◌+◌, ◌<◌, ◌≡◌, ◌≢◌, refl, ap, ◌∙◌, false, Option, none, some, List, [], ◌∷◌, ◌++◌,
  map, length, ◌==◌, Bool-cases, inl, inr, arith,
}
use client_py.Python.Result.{Result, ok, err, is_frame_error}
use client_py.Python.Struct.{Bytes}
use client_py.Python.Float.{Floats}
use client_py.Python.Dict.{lookup}
use client_py.Errors.{CodeOrInt, frame_error}
use client_py.Events.{decode_err_payload}
use client_py.Events.Rx
use client_py.Events.Rx.{RxEvent}
use client_py.Frame.{
  Cobs, IsCobs, Frame, Read, byte, timeout, os_failure, read_loop, read_frame, end_of_frame,
}
use client_py.Frame.Stream.Replay.{Recorded, nothing, frame_first}
use client_py.Session.State.{Session, Pending}
use client_py.Session.Reader.{
  round_on, put_error, Round, continued, exited, waiting, reader_round, dispatch, on_rx,
  on_async_err, correlate, respond_to,
}
use client_py.Session.Cases.{dispatch_cases}
use client_py.Session.Wire.{reader_round_dispatches}
use client_py.Session.Loop.{out_of_fuel, after_round, reader_loop}

-- Reading a frame takes at least one read.
read_loop-lt :
    (cobs : Cobs) (buf : Bytes) (reads rest : List Read) (r : Result (Option Frame))
    → read_loop cobs buf reads ≡ some (r, rest)
    → length rest < length reads
unfolding read_loop
read_loop-lt cobs buf [] rest r h = cc
read_loop-lt cobs buf (timeout ∷ reads) rest r h =
    let e : reads ≡ rest = cc in omega (arith, ap length e)
read_loop-lt cobs buf (os_failure ∷ reads) rest r h =
    let e : reads ≡ rest = cc in omega (arith, ap length e)
read_loop-lt cobs buf (byte b ∷ reads) rest r h = elim (Bool-cases (b == 0)) [
  | inl zero_byte ↦
      let h' : some (end_of_frame cobs buf, reads) ≡ some (r, rest) = rw zero_byte at h in
      let e : reads ≡ rest = cc in omega (arith, ap length e)
  | inr other ↦
      let shorter = read_loop-lt cobs (buf ++ b ∷ []) reads rest r (rw other at h) in
      omega (arith, shorter)
]

module _ (cobs : Cobs) (fl : Floats) where
  -- A round that goes on has used a read.
  round_on-lt :
      (reads rest : List Read) (s t : Session fl.Float)
      (o : Option (Result (Option Frame) × List Read))
      → read_frame cobs reads ≡ o
      → round_on cobs fl s o ≡ continued rest t
      → length rest < length reads
  unfolding read_frame
  round_on-lt reads rest s t none e h = cc
  round_on-lt reads rest s t (some (ok none, left)) e h =
      let same : left ≡ rest = cc in
      omega (arith, ap length same, read_loop-lt cobs [] reads left _ e)
  round_on-lt reads rest s t (some (ok (some frame), left)) e h =
      let same : left ≡ rest = cc in
      omega (arith, ap length same, read_loop-lt cobs [] reads left _ e)
  round_on-lt reads rest s t (some (err x, left)) e h = elim (Bool-cases (is_frame_error x)) [
    | inl f ↦
        let h' : continued left (put_error s frame_error) ≡ continued rest t = rw f at h in
        let same : left ≡ rest = cc in
        omega (arith, ap length same, read_loop-lt cobs [] reads left _ e)
    | inr o ↦ let h' : exited left s ≡ continued rest t = rw o at h in cc
  ]

  reader_round-lt :
      (reads rest : List Read) (s t : Session fl.Float)
      → reader_round cobs fl reads s ≡ continued rest t
      → length rest < length reads
  unfolding reader_round
  reader_round-lt reads rest s t h = elim (Bool-cases s.closed) [
    | inl closed ↦ let h' : exited reads s ≡ continued rest t = simp closed at h in cc
    | inr alive ↦ round_on-lt reads rest s t (read_frame cobs reads) refl (simp alive at h)
  ]

  reader_loop_from :
      (fuel : ℕ) (reads : List Read) (s : Session fl.Float) (r : Round fl.Float)
      → reader_round cobs fl reads s ≡ r
      → length reads < suc fuel
      → ((rest : List Read) (t : Session fl.Float)
          → length rest < fuel
          → reader_loop cobs fl fuel rest t ≢ out_of_fuel)
      → after_round reads s r (reader_loop cobs fl fuel) ≢ out_of_fuel
  reader_loop_from fuel reads s (continued rest t) e lt later =
      later rest t (omega (arith, reader_round-lt reads rest s t e))
  reader_loop_from fuel reads s (exited rest t) e lt later = λ h. cc
  reader_loop_from fuel reads s waiting e lt later = λ h. cc

  -- Fuel for more rounds than there are reads suffices: the reader loop ends, or comes to a read for
  -- which the transport has nothing left, on any reads and from any state.
  pub reader_loop_stops :
      (fuel : ℕ) (reads : List Read) (s : Session fl.Float)
      → length reads < fuel
      → reader_loop cobs fl fuel reads s ≢ out_of_fuel
  unfolding reader_loop
  reader_loop_stops zero reads s lt = absurd (omega arith)
  reader_loop_stops (suc fuel) reads s lt =
      reader_loop_from fuel reads s (reader_round cobs fl reads s) refl lt (reader_loop_stops fuel)

module _ {Float : Type 0} where
  respond_to-closed :
      (s : Session Float) (ref : ℕ) (o : Option Pending) (frame : Frame)
      → (respond_to s ref o frame).1.closed ≡ s.closed
  respond_to-closed s ref none frame = refl
  respond_to-closed s ref (some p) frame = refl

  correlate-closed :
      (s : Session Float) (o : Option ℕ) (frame : Frame) → (correlate s o frame).1.closed ≡ s.closed
  correlate-closed s none frame = refl
  correlate-closed s (some ref) frame = respond_to-closed s ref _ frame

  on_async_err-closed :
      (s : Session Float) (r : Result CodeOrInt) → (on_async_err s r).1.closed ≡ s.closed
  unfolding on_async_err
  on_async_err-closed s (ok code) = refl
  on_async_err-closed s (err e) = refl

  on_rx-closed : (s : Session Float) (r : Result (RxEvent Float)) → (on_rx s r).1.closed ≡ s.closed
  unfolding on_rx
  on_rx-closed s (ok rx) = refl
  on_rx-closed s (err e) = ground arith

dispatch-closed :
    (fl : Floats) (frame : Frame) (s : Session fl.Float) → (dispatch fl frame s).1.closed ≡ s.closed
dispatch-closed fl frame s =
    dispatch_cases fl frame s (λ es t. t.closed ≡ s.closed)
      (on_rx-closed s (Rx.decode fl frame.payload))
      (on_async_err-closed s (decode_err_payload frame.payload)) refl
      (correlate-closed s (lookup frame.tag s.pending) frame)

-- The frames dispatched one after the other.
abbrev pub dispatch_all : (fl : Floats) → List Frame → Session fl.Float → Session fl.Float
dispatch_all fl [] s = s
dispatch_all fl (f ∷ fs) s = dispatch_all fl fs (dispatch fl f s).1

map_byte-append :
    (xs ys : Bytes) (reads : List Read)
    → map byte (xs ++ ys) ++ reads ≡ map byte xs ++ (map byte ys ++ reads)
map_byte-append [] ys reads = refl
map_byte-append (x ∷ xs) ys reads = ap (λ l. byte x ∷ l) (map_byte-append xs ys reads)

module _ (cobs : Cobs) (fl : Floats) where
  -- With COBS as documented, on the wire forms of frames that fit, one after the other, and then any reads, the reader loop of a
  -- session that is not closed dispatches these frames in order, one round each, and goes on with the
  -- reads behind them.
  pub reader_loop-Recorded :
      (fuel : ℕ) {fs : List Frame} {wires : Bytes} (reads : List Read) (s : Session fl.Float)
      → IsCobs cobs
      → Recorded cobs fs wires
      → s.closed ≡ false
      → reader_loop cobs fl (length fs + fuel) (map byte wires ++ reads) s
        ≡ reader_loop cobs fl fuel reads (dispatch_all fl fs s)
  unfolding reader_loop
  reader_loop-Recorded fuel reads s laws nothing alive =
      ap (λ (n : ℕ). reader_loop cobs fl n reads s) (omega arith)
  reader_loop-Recorded fuel reads s laws (frame_first f {fs} wire wires fits e later) alive =
      let sum : suc (length fs) + fuel ≡ suc (length fs + fuel) = omega arith in
      ap (λ (n : ℕ). reader_loop cobs fl n (map byte (wire ++ wires) ++ reads) s) sum
      ∙ ap (λ l. reader_loop cobs fl (suc (length fs + fuel)) l s)
          (map_byte-append wire wires reads)
      ∙ ap
          (λ r.
            after_round (map byte (wire) ++ (map byte wires ++ reads)) s r
              (reader_loop cobs fl (length fs + fuel)))
          (reader_round_dispatches cobs fl f wire (map byte wires ++ reads) s laws fits e alive)
      ∙ reader_loop-Recorded fuel reads (dispatch fl f s).1 laws later
          (dispatch-closed fl f s ∙ alive)
