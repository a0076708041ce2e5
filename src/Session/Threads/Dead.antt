-- ===== src/Session/Threads/Dead.antt =====
-- A command that is begun after the reader thread has ended.
use client_py.Prelude.{
  ℕ, ◌≡◌, refl, ap, sym, ◌∙◌, Bool, true, false, some, List, [], ◌∷◌, get_elem?, get_elem?-append,
}
use client_py.Prelude.Int.{pos}
use client_py.Python.Result.{Result, ok, err, ◌>>=◌}
use client_py.Python.Struct.{Bytes}
use client_py.Python.Float.{Floats}
use client_py.Frame.{Cobs, encode_frame}
use client_py.Errors.{timeout_error}
use client_py.Events.Rx.{RxEvent}
use client_py.Session.State.{Session, Pending, RxItem, rx_event, dead_sentinel}
use client_py.Session.Send.{
  begin, after_write, alloc_tag, register_pending, forget_pending, finish, outcome, finish_tx,
  tx_outcome, raised,
}
use client_py.Session.Correlation.{fresh, begin-Awaits}
use client_py.Session.Reader.{next_rx, pop_item, drain_async_errors}
use client_py.Session.Threads.{
  Step, begins, finishes, dispatches, bad_frame, exits, takes, drains, closes,
}

module _ (cobs : Cobs) (fl : Floats) where
  abbrev pub is_close :
      {s t : Session fl.Float} {a g : List (RxEvent fl.Float)} → Step cobs fl s a g t → Bool
  is_close closes = true
  is_close _ = false

  -- Any steps but close.
  pub data Onward : Session fl.Float → Session fl.Float → Type 0 where
    here : {s : Session fl.Float} → Onward s s
    onward :
        {s t u : Session fl.Float} {a g : List (RxEvent fl.Float)}
        → (step : Step cobs fl s a g t) → is_close step ≡ false
        → Onward t u
        → Onward s u

  -- The reader thread has ended, and the object at `ref` is still without its event.
  record Unanswered (ref : ℕ) (p : Pending) (s : Session fl.Float) : Type 0 where
    dead : s.reader_dead ≡ true
    there : get_elem? s.objects ref ≡ some p

  after_write-Unanswered :
      (ref : ℕ) (p : Pending) (tag new : ℕ) (wire : Result Bytes) (write : Result (Unit {0}))
      (s : Session fl.Float)
      → Unanswered ref p s
      → Unanswered ref p (after_write tag new wire write s).1
  unfolding after_write forget_pending
  after_write-Unanswered ref p tag new (err e) write s h = record { dead = h.dead; there = h.there }
  after_write-Unanswered ref p tag new (ok wire) (err e) s h = record {
    dead = h.dead;
    there = h.there;
  }
  after_write-Unanswered ref p tag new (ok wire) (ok r) s h = record {
    dead = h.dead;
    there = h.there;
  }

  after_write-dead :
      (tag new : ℕ) (wire : Result Bytes) (write : Result (Unit {0})) (s : Session fl.Float)
      → (after_write tag new wire write s).1.reader_dead ≡ s.reader_dead
  unfolding after_write forget_pending
  after_write-dead tag new (err e) write s = refl
  after_write-dead tag new (ok wire) (err e) s = refl
  after_write-dead tag new (ok wire) (ok r) s = refl

  pop_item-Unanswered :
      (ref : ℕ) (p : Pending) (s : Session fl.Float) (items : List (RxItem fl.Float))
      → Unanswered ref p s
      → Unanswered ref p (pop_item s items).1
  pop_item-Unanswered ref p s [] h = h
  pop_item-Unanswered ref p s (dead_sentinel ∷ items) h = record { dead = h.dead; there = h.there }
  pop_item-Unanswered ref p s (rx_event rx ∷ items) h = record { dead = h.dead; there = h.there }

  begin-Unanswered :
      (ref : ℕ) (p : Pending) (cmd_type : ℕ) (payload : Result Bytes) (write : Result (Unit {0}))
      (s : Session fl.Float)
      → Unanswered ref p s
      → Unanswered ref p (begin cobs cmd_type payload write s).1
  unfolding begin alloc_tag register_pending
  begin-Unanswered ref p cmd_type payload write s h =
      let (tag, s1) = alloc_tag s in
      let (new, s2) = register_pending tag cmd_type s1 in
      after_write-Unanswered ref p tag new
        (payload >>= λ bs. encode_frame cobs (pos cmd_type) (pos tag) bs) write s2
        (record { dead = h.dead; there = get_elem?-append s.objects _ ref p h.there })

  begin-dead :
      (cmd_type : ℕ) (payload : Result Bytes) (write : Result (Unit {0})) (s : Session fl.Float)
      → (begin cobs cmd_type payload write s).1.reader_dead ≡ s.reader_dead
  unfolding begin alloc_tag register_pending
  begin-dead cmd_type payload write s =
      let (tag, s1) = alloc_tag s in
      let (new, s2) = register_pending tag cmd_type s1 in
      after_write-dead tag new (payload >>= λ bs. encode_frame cobs (pos cmd_type) (pos tag) bs)
        write s2

  Step-Unanswered :
      (ref : ℕ) (p : Pending) {s t : Session fl.Float} {a g : List (RxEvent fl.Float)}
      (step : Step cobs fl s a g t)
      → is_close step ≡ false
      → Unanswered ref p s
      → Unanswered ref p t
  unfolding forget_pending next_rx drain_async_errors
  Step-Unanswered ref p {s} (begins cmd_type payload write) n h =
      begin-Unanswered ref p cmd_type payload write s h
  Step-Unanswered ref p (finishes tag) n h = record { dead = h.dead; there = h.there }
  Step-Unanswered ref p (dispatches frame alive) n h = cc
  Step-Unanswered ref p (bad_frame alive) n h = cc
  Step-Unanswered ref p (exits alive) n h = cc
  Step-Unanswered ref p {s} takes n h = pop_item-Unanswered ref p s s.rx_queue h
  Step-Unanswered ref p drains n h = record { dead = h.dead; there = h.there }
  Step-Unanswered ref p closes n h = cc

  Onward-Unanswered :
      (ref : ℕ) (p : Pending) {s t : Session fl.Float}
      → Onward s t
      → Unanswered ref p s
      → Unanswered ref p t
  Onward-Unanswered ref p here h = h
  Onward-Unanswered ref p (onward step n later) h =
      Onward-Unanswered ref p later (Step-Unanswered ref p step n h)

  -- A command that is sent by a session whose reader thread has ended raises a timeout when its thread
  -- stops waiting, at the end of _send_and_wait and at that of _send_tx, whatever the threads of the
  -- session do meanwhile but close it.
  pub dead_times_out :
      (cmd_type tag ref : ℕ) (payload : Result Bytes) (write : Result (Unit {0}))
      (s s1 t : Session fl.Float)
      → s.reader_dead ≡ true
      → begin cobs cmd_type payload write s ≡ (ok (tag, ref), s1)
      → Onward s1 t
      → ((finish tag ref t).0 ≡ raised timeout_error)
        × ((finish_tx tag ref t).0 ≡ raised timeout_error)
  unfolding finish outcome finish_tx tx_outcome
  dead_times_out cmd_type tag ref payload write s s1 t dead sent later =
      let (awaits, same_tag) = begin-Awaits cobs cmd_type tag ref payload write s s1 sent in
      let still_dead : s1.reader_dead ≡ true =
        ap (λ r. r.1.reader_dead) (sym sent) ∙ begin-dead cmd_type payload write s ∙ dead in
      let h =
        Onward-Unanswered ref (fresh tag cmd_type) later
          (record { dead = still_dead; there = awaits.stored }) in
      (simp h.there, simp h.there)
