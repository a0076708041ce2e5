-- ===== src/Live/Tidy.antt =====
-- Between two methods no command is registered, whatever the device does.
use client_py.Prelude.{ℕ, ◌≡◌, refl, ◌⊎◌, inl, inr, true, [], ◌∷◌, length}
use client_py.Prelude.Int.{pos}
use client_py.Python.Result.{Result, ok, err, ◌>>=◌}
use client_py.Python.Struct.{Bytes}
use client_py.Python.Float.{Floats}
use client_py.Python.Dict.{Dict, insert_nil, pop_nil, pop_only}
use client_py.Frame.{Cobs, encode_frame}
use client_py.Session.State.{Session}
use client_py.Session.Send.{
  following_tag, alloc_tag, register_pending, after_write, begin, forget_pending, Outcome,
}
use client_py.Session.Tags.{IsTag, following_tag-IsTag}
use client_py.Live.{Device, System, behind_wait, send}
use client_py.Live.Sentinel.{has_sentinel}
use client_py.Live.Within.{Within, reader_runs-Within}

-- No command is registered, the tag counter is valid, and if the reader thread has ended, the queue
-- says so.
pub record Tidy {Float D : Type 0} (w : System Float D) : Type 0 where
  pub idle : w.session.pending ≡ []
  pub tagged : IsTag w.session.next_tag
  pub poisoned : w.session.reader_dead ≡ true → has_sentinel w.session.rx_queue ≡ true

-- What `begin` leaves registered.
abbrev entries_of : Result (ℕ × ℕ) → Dict ℕ
entries_of (ok entry) = entry ∷ []
entries_of (err e) = []

module _ {Float : Type 0} where
  after_write-Within :
      (tag ref : ℕ) (wire : Result Bytes) (write : Result (Unit {0})) (s : Session Float)
      → s.pending ≡ (tag, ref) ∷ []
      → (s.reader_dead ≡ true → has_sentinel s.rx_queue ≡ true)
      → let r = after_write tag ref wire write s in Within (entries_of r.0) s.next_tag r.1
  unfolding after_write forget_pending
  after_write-Within tag ref (err e) write s only h = record {
    left = inl (rw only (pop_only tag ref));
    counter = refl;
    poisoned = h;
  }
  after_write-Within tag ref (ok wire) (err e) s only h = record {
    left = inl (rw only (pop_only tag ref));
    counter = refl;
    poisoned = h;
  }
  after_write-Within tag ref (ok wire) (ok r) s only h = record {
    left = inl only;
    counter = refl;
    poisoned = h;
  }

  forget-left :
      (tag ref : ℕ) (s : Session Float)
      → (s.pending ≡ (tag, ref) ∷ []) ⊎ (s.pending ≡ [])
      → (forget_pending tag s).pending ≡ []
  unfolding forget_pending
  forget-left tag ref s (inl h) = rw h (pop_only tag ref)
  forget-left tag ref s (inr h) = pop_nil tag s.pending h

  behind_wait-Tidy :
      {D A : Type 0} (k : ℕ → ℕ → Session Float → Outcome A × Session Float) (tag : ℕ)
      → ((tag ref : ℕ) (s : Session Float) → (k tag ref s).1 ≡ forget_pending tag s)
      → IsTag tag
      → (r : Result (ℕ × ℕ) × System Float D) → Within (entries_of r.0) tag r.1.session
      → Tidy (behind_wait k r).1
  unfolding forget_pending
  behind_wait-Tidy k tag forgets valid (err e, w) h = record {
    idle = elim h.left [ inl a ↦ a | inr b ↦ b ];
    tagged = rw h.counter valid;
    poisoned = h.poisoned;
  }
  behind_wait-Tidy k tag forgets valid (ok (t, ref), w) h = record {
    idle = rw (forgets t ref w.session) (forget-left t ref w.session h.left);
    tagged = rw (forgets t ref w.session, h.counter) valid;
    poisoned = rw (forgets t ref w.session) h.poisoned;
  }

module _ (cobs : Cobs) (fl : Floats) {D : Type 0} (device : Device D) where
  begin-Within :
      (cmd_type : ℕ) (payload : Result Bytes) (write : Result (Unit {0})) (w : System fl.Float D)
      → Tidy w
      → let r = begin cobs cmd_type payload write w.session in
        Within (entries_of r.0) (following_tag w.session.next_tag) r.1
  unfolding begin alloc_tag register_pending
  begin-Within cmd_type payload write w h =
      after_write-Within w.session.next_tag (length w.session.objects)
        (payload >>= λ bs. encode_frame cobs (pos cmd_type) (pos w.session.next_tag) bs) write _
        (rw h.idle (insert_nil _ _)) h.poisoned

  pub waits-Tidy :
      {A : Type 0} (k : ℕ → ℕ → Session fl.Float → Outcome A × Session fl.Float) (cmd_type : ℕ)
      (payload : Result Bytes) (w : System fl.Float D)
      → ((tag ref : ℕ) (s : Session fl.Float) → (k tag ref s).1 ≡ forget_pending tag s)
      → Tidy w
      → Tidy (behind_wait k (send cobs fl device cmd_type payload w)).1
  unfolding send
  waits-Tidy k cmd_type payload w forgets h =
      behind_wait-Tidy k (following_tag w.session.next_tag) forgets
        (following_tag-IsTag w.session.next_tag h.tagged) _
        (reader_runs-Within cobs fl _ _ device _ _ (begin-Within cmd_type payload _ w h))
