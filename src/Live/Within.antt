-- ===== src/Live/Within.antt =====
-- What the reader thread keeps on any reads.
use client_py.Prelude.{
  ℕ, zero, suc, ◌≡◌, refl, ◌∙◌, ◌⊎◌, inl, inr, true, Option, none, some, List, [], sym, ◌++◌,
  Bool-cases,
}
use client_py.Python.Result.{Result, ok, err, is_frame_error}
use client_py.Python.Float.{Floats}
use client_py.Python.Dict.{Dict}
use client_py.Frame.{Cobs, Frame, Read, read_frame}
use client_py.Session.State.{Session}
use client_py.Session.Reader.{
  Round, continued, exited, waiting, round_on, reader_round, reader_exit, dispatch,
}
use client_py.Session.Loop.{Loop, ended, reading, out_of_fuel, after_round, reader_loop}
use client_py.Live.{Device, System, settle, reader_runs}
use client_py.Live.Quiet.{dispatch-Same}
use client_py.Live.Sentinel.{has_sentinel, has_sentinel-last, dispatch-sentinel}

-- At most these registrations are left, the tag counter stands at `tag`, and if the reader thread has
-- ended, the queue says so.
pub record Within {Float : Type 0} (entries : Dict ℕ) (tag : ℕ) (s : Session Float) : Type 0 where
  pub left : (s.pending ≡ entries) ⊎ (s.pending ≡ [])
  pub counter : s.next_tag ≡ tag
  pub poisoned : s.reader_dead ≡ true → has_sentinel s.rx_queue ≡ true

module _ (cobs : Cobs) (fl : Floats) (entries : Dict ℕ) (tag : ℕ) where
  abbrev RoundWithin : Round fl.Float → Type 0
  RoundWithin (continued reads s) = Within entries tag s
  RoundWithin (exited reads s) = Within entries tag s
  RoundWithin waiting = Unit {0}

  abbrev LoopWithin : Loop fl.Float → Type 0
  LoopWithin (ended reads s) = Within entries tag s
  LoopWithin (reading reads s) = Within entries tag s
  LoopWithin out_of_fuel = Unit {0}

  exit-Within : (s : Session fl.Float) → Within entries tag s → Within entries tag (reader_exit s)
  unfolding reader_exit
  exit-Within s h = record {
    left = inr refl;
    counter = h.counter;
    poisoned = λ d. has_sentinel-last s.rx_queue;
  }

  dispatch-Within :
      (f : Frame) (s : Session fl.Float)
      → Within entries tag s
      → Within entries tag (dispatch fl f s).1
  dispatch-Within f s h =
      let same = dispatch-Same fl f s in
      record {
        left = rw same.pending h.left;
        counter = same.next_tag ∙ h.counter;
        poisoned = λ dead. dispatch-sentinel fl f s (h.poisoned (sym same.reader_dead ∙ dead));
      }

  round_on-Within :
      (s : Session fl.Float) (o : Option (Result (Option Frame) × List Read))
      → Within entries tag s
      → RoundWithin (round_on cobs fl s o)
  round_on-Within s none h = tt
  round_on-Within s (some (ok none, reads)) h = h
  round_on-Within s (some (ok (some f), reads)) h = dispatch-Within f s h
  round_on-Within s (some (err e, reads)) h = elim (Bool-cases (is_frame_error e)) [
    | inl f ↦ rw f (record { left = h.left; counter = h.counter; poisoned = h.poisoned })
    | inr o ↦ rw o h
  ]

  reader_round-Within :
      (reads : List Read) (s : Session fl.Float)
      → Within entries tag s
      → RoundWithin (reader_round cobs fl reads s)
  unfolding reader_round
  reader_round-Within reads s h = elim (Bool-cases s.closed) [
    | inl c ↦ simp c h
    | inr o ↦ simp o (round_on-Within s (read_frame cobs reads) h)
  ]

  after_round-Within :
      (reads : List Read) (s : Session fl.Float) (r : Round fl.Float)
      (again : List Read → Session fl.Float → Loop fl.Float)
      → Within entries tag s
      → RoundWithin r
      → ((reads : List Read) (s : Session fl.Float)
          → Within entries tag s
          → LoopWithin (again reads s))
      → LoopWithin (after_round reads s r again)
  after_round-Within reads s (continued rest t) again h hr later = later rest t hr
  after_round-Within reads s (exited rest t) again h hr later = exit-Within t hr
  after_round-Within reads s waiting again h hr later = h

  reader_loop-Within :
      (fuel : ℕ) (reads : List Read) (s : Session fl.Float)
      → Within entries tag s
      → LoopWithin (reader_loop cobs fl fuel reads s)
  unfolding reader_loop
  reader_loop-Within zero reads s h = tt
  reader_loop-Within (suc fuel) reads s h =
      after_round-Within reads s (reader_round cobs fl reads s) (reader_loop cobs fl fuel) h
        (reader_round-Within reads s h) (reader_loop-Within fuel)

  module _ {D : Type 0} (device : Device D) where
    settle-Within :
        (w : System fl.Float D) (l : Loop fl.Float)
        → Within entries tag w.session
        → LoopWithin l
        → Within entries tag (settle w l).session
    settle-Within w (ended reads s) h hl = hl
    settle-Within w (reading reads s) h hl = hl
    settle-Within w out_of_fuel h hl = h

    pub reader_runs-Within :
        (reads : List Read) (w : System fl.Float D)
        → Within entries tag w.session
        → Within entries tag (reader_runs cobs fl device reads w).session
    unfolding reader_runs
    reader_runs-Within reads w h = elim (Bool-cases w.session.reader_dead) [
      | inl dead ↦ simp dead h
      | inr alive ↦
          simp alive (settle-Within w _ h (reader_loop-Within _ (w.unread ++ reads) w.session h))
    ]
