-- ===== src/Session/Threads/Answers.antt =====
-- What the waiting threads find in the states that a session can reach.
use client_py.Prelude.{
  ℕ, ◌≡◌, ◌≢◌, refl, subst, sym, true, false, Bool, Option, none, some, List, [], ◌∷◌, get_elem?,
  All, All-get_elem?, ◌==◌, Bool-cases, inl, inr, some_injective,
}
use client_py.Python.Float.{Floats}
use client_py.Python.Dict.{Dict, lookup}
use client_py.Frame.{Cobs}
use client_py.Errors.{DongloraError, donglora_error, timeout_error}
use client_py.Events.{TxDone}
use client_py.Events.Rx.{RxEvent}
use client_py.Commands.{type_tx}
use client_py.Session.State.{Session, Pending}
use client_py.Session.Send.{Outcome, returned, raised, tx_outcome, finish_tx}
use client_py.Session.Reader.{reader_exit, close}
use client_py.Session.Wake.{At, Exists, IsAnswered, reader_exit_wakes, close_wakes}
use client_py.Session.Threads.{Reach}
use client_py.Session.Threads.Settled.{IsSettled}
use client_py.Session.Threads.Keeps.{Names}
use client_py.Session.Threads.Invariant.{Reach-IsWf}

-- How a TX may end: it times out without its event, or it raises the error or returns the TX_DONE that
-- the object holds.
pub data TxEnds (p : Pending) : Outcome TxDone → Type 0 where
  timed_out : p.event ≡ false → TxEnds p (raised timeout_error)
  failed : (e : DongloraError) → p.event ≡ true → p.err ≡ some e → TxEnds p (raised e)
  sent :
      (td : TxDone) → p.event ≡ true → p.err ≡ none → p.tx_done ≡ some td → TxEnds p (returned td)

some_of_ne : {A : Type 0} (o : Option A) → o ≢ none → (a : A) × (o ≡ some a)
some_of_ne none h = absurd (h refl)
some_of_ne (some a) h = (a, refl)

tx_outcome-TxEnds :
    (p : Pending) (event : Bool) (e : Option DongloraError)
    → p.event ≡ event
    → p.err ≡ e
    → IsSettled p
    → p.cmd_type ≡ type_tx
    → TxEnds p (tx_outcome p)
unfolding tx_outcome
tx_outcome-TxEnds p false e h he s t = simp h (timed_out h)
tx_outcome-TxEnds p true (some e) h he s t = simp (h, he) (failed e h he)
tx_outcome-TxEnds p true none h he s t = elim (s.answered t h) [
  | inl ne ↦ absurd (ne he)
  | inr ne ↦ let (td, hd) = some_of_ne p.tx_done ne in simp (h, he, hd) (sent td h he hd)
]

registered_object :
    (objects : List Pending) (d : Dict ℕ) (tag ref : ℕ)
    → All (Names objects) d
    → lookup tag d ≡ some ref
    → Exists (get_elem? objects ref)
unfolding lookup
registered_object objects [] tag ref h e = cc
registered_object objects ((j, v) ∷ d) tag ref h e = elim (Bool-cases (j == tag)) [
  | inl same ↦
      let (p, at, t) = h.0.1 in
      let v_is_ref = some_injective v ref (rw same at e) in
      subst (λ k. Exists (get_elem? objects k)) v_is_ref (subst Exists (sym at) tt)
  | inr other ↦ registered_object objects d tag ref h.1 (rw other at e)
]

module _ (cobs : Cobs) (fl : Floats) {arrived got : List (RxEvent fl.Float)} {s : Session fl.Float}
    (reached : Reach cobs fl arrived got s) where
  -- In every state that the threads of a session can come to, a thread that stops waiting for its TX
  -- raises a timeout if the event is not set, else the error that the object holds, else returns the
  -- TX_DONE that it holds: _send_tx never comes to its internal error.
  pub tx_ends :
      (tag ref : ℕ) (p : Pending)
      → get_elem? s.objects ref ≡ some p
      → p.cmd_type ≡ type_tx
      → TxEnds p (finish_tx tag ref s).0
  unfolding finish_tx
  tx_ends tag ref p at is_tx = rw at (
      tx_outcome-TxEnds p p.event p.err refl refl
        (All-get_elem? IsSettled s.objects ref p (Reach-IsWf cobs fl reached).settled at) is_tx)

  -- In every state that the threads of a session can come to, the end of the reader thread sets the event
  -- of every registered command and leaves it an error or a TX_DONE, close sets the event of every
  -- registered command and leaves it an error, and both leave no command registered.
  pub ends_wake_all :
      (tag ref : ℕ)
      → lookup tag s.pending ≡ some ref
      → At IsAnswered (get_elem? (reader_exit s).objects ref)
        × ((reader_exit s).pending ≡ [])
        × At
            (λ p. (p.event ≡ true) × (p.err ≡ some donglora_error))
            (get_elem? (close s).objects ref)
        × ((close s).pending ≡ [])
  ends_wake_all tag ref h =
      let there =
        registered_object s.objects s.pending tag ref (Reach-IsWf cobs fl reached).registered h in
      let (a, b, c) = reader_exit_wakes s tag ref h there in
      let (d, e, f) = close_wakes s tag ref h there in (a, b, d, e)
