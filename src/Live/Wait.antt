-- ===== src/Live/Wait.antt =====
-- The one command that waits, while frames are dispatched: only those with its tag reach it.
use client_py.Prelude.{
  ℕ, ◌≡◌, ◌≢◌, ◌∙◌, some, List, [], ◌∷◌, Bool-cases, inl, inr, ◌==◌, if◌then◌else◌, arith,
  get_elem?, ==_iff,
}
use client_py.Python.Float.{Floats}
use client_py.Python.Dict.{lookup, lookup_only}
use client_py.Frame.{Frame}
use client_py.Session.State.{Session, Pending}
use client_py.Session.Response.{handle_response}
use client_py.Session.Reader.{dispatch}
use client_py.Session.Correlation.{Awaits, dispatch-Awaits, dispatch_isolated}
use client_py.Session.Loop.Runs.{dispatch_all}
use client_py.Live.Quiet.{dispatch-Same}

-- The frames with this tag.
unfoldable pub own : ℕ → List Frame → List Frame
own tag [] = []
own tag (f ∷ fs) = let rest = own tag fs in if f.tag == tag then f ∷ rest else rest

-- What a command has become behind these frames.
abbrev pub handle_all : List Frame → Pending → Pending
handle_all [] p = p
handle_all (f ∷ fs) p = handle_all fs (handle_response p f).1

lookup_other : (tag ref other : ℕ) → other ≢ tag → lookup {V = ℕ} other ((tag, ref) ∷ []) ≢ some ref
unfolding lookup
lookup_other tag ref other ne = ground (arith, ne)

-- One command waits, on the object `p`.
pub record Waiting {Float : Type 0} (s : Session Float) (tag ref : ℕ) (p : Pending) : Type 0 where
  pub only : s.pending ≡ (tag, ref) ∷ []
  pub stored : get_elem? s.objects ref ≡ some p

module _ (fl : Floats) (tag ref : ℕ) (tagged : tag ≢ 0) where
  dispatch-Waiting :
      (f : Frame) (s : Session fl.Float) (p : Pending)
      → f.tag ≡ tag
      → Waiting s tag ref p
      → Waiting (dispatch fl f s).1 tag ref (handle_response p f).1
  dispatch-Waiting f s p e h =
      let awaits : Awaits s tag ref p = record {
        registered = rw h.only (lookup_only tag ref);
        stored = h.stored;
      } in
      record {
        only = (dispatch-Same fl f s).pending ∙ h.only;
        stored = (dispatch-Awaits fl s f tag ref p awaits e tagged).stored;
      }

  dispatch-others :
      (f : Frame) (s : Session fl.Float) (p : Pending)
      → f.tag ≢ tag
      → Waiting s tag ref p
      → Waiting (dispatch fl f s).1 tag ref p
  dispatch-others f s p ne h =
      let kept = dispatch_isolated fl s f ref (rw h.only (lookup_other tag ref f.tag ne)) in
      record { only = (dispatch-Same fl f s).pending ∙ h.only; stored = kept.0 ∙ h.stored }

  -- Only the frames with its own tag reach the command.
  pub dispatch_all-Waiting :
      (fs : List Frame) (s : Session fl.Float) (p : Pending)
      → Waiting s tag ref p
      → Waiting (dispatch_all fl fs s) tag ref (handle_all (own tag fs) p)
  unfolding own
  dispatch_all-Waiting [] s p h = h
  dispatch_all-Waiting (f ∷ fs) s p h = elim (Bool-cases (f.tag == tag)) [
    | inl mine ↦ rw mine (
        dispatch_all-Waiting fs (dispatch fl f s).1 _
          (dispatch-Waiting f s p ((==_iff f.tag tag).0 mine) h))
    | inr other ↦
        rw other
          (dispatch_all-Waiting fs (dispatch fl f s).1 p (dispatch-others f s p (ground arith) h))
  ]
