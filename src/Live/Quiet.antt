-- ===== src/Live/Quiet.antt =====
-- What a frame leaves alone in the session, and a session between two commands.
use client_py.Prelude.{
  ◌≡◌, refl, ◌∙◌, false, Option, none, some, List, [], ◌∷◌, ℕ, Bool-cases, inl, inr, ◌++◌, length,
  arith,
}
use client_py.Python.Result.{Result, ok, err, is_value_error}
use client_py.Python.Float.{Floats}
use client_py.Python.Dict.{lookup, insert, pop_only}
use client_py.Python.Struct.{Bytes}
use client_py.Frame.{Frame}
use client_py.Errors.{CodeOrInt}
use client_py.Events.{decode_err_payload}
use client_py.Events.Rx
use client_py.Events.Rx.{RxEvent}
use client_py.Session.State.{Session, init}
use client_py.Session.Send.{following_tag, forget_pending}
use client_py.Session.Reader.{dispatch, on_rx, on_async_err, correlate, respond_to}
use client_py.Session.Cases.{dispatch_cases}
use client_py.Session.Correlation.{fresh}
use client_py.Session.Loop.Runs.{dispatch_all}
use client_py.Session.Tags.{IsTag, following_tag-IsTag}
use client_py.Live.{System}

-- The registrations, the tag counter and the flags are the same.
pub record Same {Float : Type 0} (s t : Session Float) : Type 0 where
  pub pending : t.pending ≡ s.pending
  pub next_tag : t.next_tag ≡ s.next_tag
  pub closed : t.closed ≡ s.closed
  pub reader_dead : t.reader_dead ≡ s.reader_dead

module _ {Float : Type 0} where
  pub Same-refl : (s : Session Float) → Same s s
  Same-refl s = record { pending = refl; next_tag = refl; closed = refl; reader_dead = refl }

  Same-trans : (s t u : Session Float) → Same s t → Same t u → Same s u
  Same-trans s t u f g = record {
    pending = g.pending ∙ f.pending;
    next_tag = g.next_tag ∙ f.next_tag;
    closed = g.closed ∙ f.closed;
    reader_dead = g.reader_dead ∙ f.reader_dead;
  }

  on_rx-Same : (s : Session Float) (r : Result (RxEvent Float)) → Same s (on_rx s r).1
  unfolding on_rx
  on_rx-Same s (ok rx) = record {
    pending = refl;
    next_tag = refl;
    closed = refl;
    reader_dead = refl;
  }
  on_rx-Same s (err e) = elim (Bool-cases (is_value_error e)) [
    | inl v ↦ rw v (record { pending = refl; next_tag = refl; closed = refl; reader_dead = refl })
    | inr o ↦ rw o (Same-refl s)
  ]

  on_async_err-Same : (s : Session Float) (r : Result CodeOrInt) → Same s (on_async_err s r).1
  unfolding on_async_err
  on_async_err-Same s (ok code) = record {
    pending = refl;
    next_tag = refl;
    closed = refl;
    reader_dead = refl;
  }
  on_async_err-Same s (err e) = Same-refl s

  correlate-Same :
      (s : Session Float) (o : Option ℕ) (frame : Frame) → Same s (correlate s o frame).1
  correlate-Same s none frame = Same-refl s
  correlate-Same s (some ref) frame = from_object _
    where
      from_object : (o : Option _) → Same s (respond_to s ref o frame).1
      from_object none = Same-refl s
      from_object (some p) = record {
        pending = refl;
        next_tag = refl;
        closed = refl;
        reader_dead = refl;
      }

module _ (fl : Floats) where
  pub dispatch-Same : (frame : Frame) (s : Session fl.Float) → Same s (dispatch fl frame s).1
  dispatch-Same frame s =
      dispatch_cases fl frame s (λ es t. Same s t) (on_rx-Same s (Rx.decode fl frame.payload))
        (on_async_err-Same s (decode_err_payload frame.payload)) (Same-refl s)
        (correlate-Same s (lookup frame.tag s.pending) frame)

  pub dispatch_all-Same : (fs : List Frame) (s : Session fl.Float) → Same s (dispatch_all fl fs s)
  dispatch_all-Same [] s = Same-refl s
  dispatch_all-Same (f ∷ fs) s =
      Same-trans s (dispatch fl f s).1 _ (dispatch-Same f s)
        (dispatch_all-Same fs (dispatch fl f s).1)

-- The session is up, no command waits, and everything that the transport gave is handled.
pub record Quiet {Float D : Type 0} (w : System Float D) : Type 0 where
  pub is_open : w.session.closed ≡ false
  pub reads_on : w.session.reader_dead ≡ false
  pub tagged : IsTag w.session.next_tag
  pub idle : w.session.pending ≡ []
  pub nothing_unread : w.unread ≡ []

pub init-Quiet :
    {Float D : Type 0} (d : D)
    → Quiet (record { session = init {Float = Float}; unread = []; device = d })
init-Quiet d = record {
  is_open = refl;
  reads_on = refl;
  tagged = omega arith;
  idle = refl;
  nothing_unread = refl;
}

-- The session behind `begin`, where the write succeeds.
abbrev pub sent_session : {Float : Type 0} → ℕ → Bytes → Session Float → Session Float
sent_session cmd_type wire s = record s {
  next_tag = following_tag s.next_tag;
  objects = s.objects ++ fresh s.next_tag cmd_type ∷ [];
  pending = insert s.next_tag (length s.objects) s.pending;
  written = s.written ++ wire ∷ [];
}

module _ (fl : Floats) {D : Type 0} where
  -- A command that was answered with any frames leaves the session quiet.
  pub answered-Quiet :
      (w : System fl.Float D) (cmd_type : ℕ) (wire : Bytes) (fs : List Frame) (d : D)
      → Quiet w
      → Quiet (record {
        session =
            forget_pending w.session.next_tag
              (dispatch_all fl fs (sent_session cmd_type wire w.session));
        unread = [];
        device = d;
      })
  unfolding forget_pending insert
  answered-Quiet w cmd_type wire fs d q =
      let s = sent_session cmd_type wire w.session in
      let same = dispatch_all-Same fl fs s in
      record {
        is_open = same.closed ∙ q.is_open;
        reads_on = same.reader_dead ∙ q.reads_on;
        tagged = rw same.next_tag (following_tag-IsTag w.session.next_tag q.tagged);
        idle = rw (same.pending, q.idle) (pop_only w.session.next_tag (length w.session.objects));
        nothing_unread = refl;
      }
