-- ===== src/Session/Wake.antt =====
-- When the session ends, by close or because the reader thread leaves its loop, every pending command
-- is woken and has an answer.
use client_py.Prelude.{
  some_injective, ℕ, zero, suc, ◌≡◌, refl, true, Option, none, some, List, [], ◌∷◌, ◌==◌, arith,
  get_elem?, Bool-cases, inl, inr, ◌⊎◌, ◌≢◌,
}
use client_py.Python.Dict.{Dict, lookup, values}
use client_py.Errors.{DongloraError, donglora_error}
use client_py.Events.{TxDone}
use client_py.Session.State.{Session, Pending, update, update_all}
use client_py.Session.Reader.{reader_exit, close, mark_closed, wake_dead, wake_closed}

-- `P` holds of the object that a reference gives.
abbrev pub At : (Pending → Type 0) → Option Pending → Type 0
At P none = ⊥
At P (some p) = P p

abbrev pub Exists : Option Pending → Type 0
Exists = At (λ _. Unit {0})

update-suc :
    (p : Pending) (objects : List Pending) (ref : ℕ) (f : Pending → Pending)
    → update (p ∷ objects) (suc ref) f ≡ p ∷ update objects ref f
unfolding update
update-suc p objects ref f = ground arith

module _ (P : Pending → Type 0) (f : Pending → Pending) (holds : (p : Pending) → P (f p)) where
  update_self :
      (objects : List Pending) (ref : ℕ)
      → Exists (get_elem? objects ref)
      → At P (get_elem? (update objects ref f) ref)
  update_self [] ref h = absurd h
  update_self (p ∷ objects) zero h = unfold update in holds p
  update_self (p ∷ objects) (suc ref) h =
      rw (update-suc p objects ref f) (update_self objects ref h)

  update_keep :
      (objects : List Pending) (ref k : ℕ)
      → At P (get_elem? objects k)
      → At P (get_elem? (update objects ref f) k)
  update_keep [] ref k h = absurd h
  update_keep (p ∷ objects) zero zero h = unfold update in holds p
  update_keep (p ∷ objects) zero (suc k) h = unfold update in h
  update_keep (p ∷ objects) (suc ref) zero h = rw (update-suc p objects ref f) h
  update_keep (p ∷ objects) (suc ref) (suc k) h =
      rw (update-suc p objects ref f) (update_keep objects ref k h)

  update_all_keep :
      (objects : List Pending) (refs : List ℕ) (k : ℕ)
      → At P (get_elem? objects k)
      → At P (get_elem? (update_all objects refs f) k)
  unfolding update_all
  update_all_keep objects [] k h = h
  update_all_keep objects (ref ∷ refs) k h =
      update_all_keep (update objects ref f) refs k (update_keep objects ref k h)

module _ (P : Pending → Type 0) (f : Pending → Pending) (holds : (p : Pending) → P (f p)) where
  update_all-values :
      (objects : List Pending) (d : Dict ℕ) (tag ref : ℕ)
      → lookup tag d ≡ some ref
      → Exists (get_elem? objects ref)
      → At P (get_elem? (update_all objects (values d) f) ref)
  unfolding lookup values update_all
  update_all-values objects [] tag ref h e = cc
  update_all-values objects ((j, v) ∷ d) tag ref h e = elim (Bool-cases (j == tag)) [
    | inl same ↦
        update_all_keep P f holds (update objects v f) (values d) ref
          (rw (some_injective v ref (rw same at h)) (update_self P f holds objects ref e))
    | inr other ↦
        update_all-values (update objects v f) d tag ref (rw other at h)
          (update_keep (λ _. Unit {0}) f (λ _. tt) objects v ref e)
  ]

-- The event is set, and the waiting thread finds an error or a TX_DONE.
abbrev pub IsAnswered : Pending → Type 0
IsAnswered p = (p.event ≡ true) × ((p.err ≢ none) ⊎ (p.tx_done ≢ none))

marked : (e : Option DongloraError) (td : Option TxDone) → (mark_closed e td ≢ none) ⊎ (td ≢ none)
marked none none = inl (λ e. cc)
marked none (some td) = inr (λ e. cc)
marked (some e) td = inl (λ h. cc)

wake_dead-IsAnswered : (p : Pending) → IsAnswered (wake_dead p)
unfolding wake_dead
wake_dead-IsAnswered p = (refl, marked p.err p.tx_done)

wake_closed-IsAnswered : (p : Pending) → IsAnswered (wake_closed p)
unfolding wake_closed
wake_closed-IsAnswered p = (refl, inl (λ e. cc))

module _ {Float : Type 0} (s : Session Float) where
  -- When the reader thread ends, every command that is pending has its event set and an error or a
  -- TX_DONE to find, no command stays pending, and the session is marked dead.
  pub reader_exit_wakes :
      (tag ref : ℕ)
      → lookup tag s.pending ≡ some ref
      → Exists (get_elem? s.objects ref)
      → At IsAnswered (get_elem? (reader_exit s).objects ref)
        × ((reader_exit s).pending ≡ [])
        × ((reader_exit s).reader_dead ≡ true)
  unfolding reader_exit
  reader_exit_wakes tag ref h e = (
    update_all-values IsAnswered wake_dead wake_dead-IsAnswered s.objects s.pending tag ref h e,
    refl,
    refl,
  )

  -- After close, every command that was pending has its event set and an error to raise, no command
  -- stays pending, and the session is marked closed.
  pub close_wakes :
      (tag ref : ℕ)
      → lookup tag s.pending ≡ some ref
      → Exists (get_elem? s.objects ref)
      → At (λ p. (p.event ≡ true) × (p.err ≡ some donglora_error)) (get_elem? (close s).objects ref)
        × ((close s).pending ≡ [])
        × ((close s).closed ≡ true)
  unfolding close wake_closed
  close_wakes tag ref h e = (
    update_all-values _ wake_closed (λ p. (refl, refl)) s.objects s.pending tag ref h e,
    refl,
    refl,
  )
