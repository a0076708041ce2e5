-- ===== src/Session/Threads/Settled.antt =====
-- What holds of a pending command between any two steps.
use client_py.Prelude.{
  ◌∙◌, ℕ, ◌≡◌, ◌≢◌, refl, true, false, Option, none, some, ◌==◌, ◌⊎◌, inl, inr, arith, Bool-cases,
}
use client_py.Python.Result.{Error, Result, ok, err, is_value_error}
use client_py.Frame.{Frame}
use client_py.Errors.{DongloraError, CodeOrInt}
use client_py.Events.{
  type_ok, type_err, type_tx_done, OkPayload, TxDone, parse_ok_payload, decode_err_payload,
  decode_tx_done,
}
use client_py.Events.Enums.{TxResult}
use client_py.Commands.{type_tx}
use client_py.Session.State.{Pending}
use client_py.Session.Response.{
  fail, bad_payload, on_ok, on_err, on_tx_done, tx_result, handle_response,
}
use client_py.Session.Reader.{wake_dead, wake_closed, mark_closed}

-- While the event is not set there is neither an error nor a TX_DONE, and a TX whose event is set has
-- one of them.
pub record IsSettled (p : Pending) : Type 0 where
  pub unset : p.event ≡ false → (p.err ≡ none) × (p.tx_done ≡ none)
  pub answered : p.cmd_type ≡ type_tx → p.event ≡ true → (p.err ≢ none) ⊎ (p.tx_done ≢ none)

-- `q` is the same command as `p`, and it is settled if `p` is.
pub record Follows (p q : Pending) : Type 0 where
  pub same_tag : q.tag ≡ p.tag
  pub same_type : q.cmd_type ≡ p.cmd_type
  pub stays : p.event ≡ true → q.event ≡ true
  pub settled : IsSettled p → IsSettled q

pub Follows-refl : (p : Pending) → Follows p p
Follows-refl p = record { same_tag = refl; same_type = refl; stays = λ h. h; settled = λ h. h }

pub Follows-trans : (p q r : Pending) → Follows p q → Follows q r → Follows p r
Follows-trans p q r f g = record {
  same_tag = g.same_tag ∙ f.same_tag;
  same_type = g.same_type ∙ f.same_type;
  stays = λ h. g.stays (f.stays h);
  settled = λ h. g.settled (f.settled h);
}

fail-Follows : (p : Pending) (e : DongloraError) → Follows p (fail p e)
fail-Follows p e = record {
  same_tag = refl;
  same_type = refl;
  stays = λ h. refl;
  settled = λ h. record { unset = λ u. cc; answered = λ t u. inl (λ n. cc) };
}

tx_result-Follows : (p : Pending) (td : TxDone) (r : TxResult) → Follows p (tx_result p td r)
unfolding tx_result
tx_result-Follows p td TxResult.transmitted = record {
  same_tag = refl;
  same_type = refl;
  stays = λ h. refl;
  settled = λ h. record { unset = λ u. cc; answered = λ t u. inr (λ n. cc) };
}
tx_result-Follows p td TxResult.channel_busy = fail-Follows p _
tx_result-Follows p td TxResult.cancelled = fail-Follows p _

bad_payload-Follows : (p : Pending) (e : Error) → Follows p (bad_payload p (err e)).1
unfolding bad_payload
bad_payload-Follows p e = elim (Bool-cases (is_value_error e)) [
  | inl v ↦ rw v (fail-Follows p _)
  | inr o ↦ rw o (Follows-refl p)
]

on_ok-Follows : (p : Pending) (r : Result OkPayload) → Follows p (on_ok p r).1
unfolding on_ok
on_ok-Follows p (err e) = bad_payload-Follows p e
on_ok-Follows p (ok payload) = elim (Bool-cases (p.cmd_type == type_tx)) [
  | inl is_tx ↦ rw is_tx (record {
    same_tag = refl;
    same_type = refl;
    stays = λ h. h;
    settled = λ h. record { unset = h.unset; answered = h.answered };
  })
  | inr other ↦ rw other (record {
    same_tag = refl;
    same_type = refl;
    stays = λ h. refl;
    settled = λ h. record { unset = λ u. cc; answered = λ t u. ground arith };
  })
]

on_err-Follows : (p : Pending) (tag : ℕ) (r : Result CodeOrInt) → Follows p (on_err p tag r).1
unfolding on_err
on_err-Follows p tag (err e) = Follows-refl p
on_err-Follows p tag (ok code) = fail-Follows p _

on_tx_done-Follows : (p : Pending) (r : Result TxDone) → Follows p (on_tx_done p r).1
unfolding on_tx_done
on_tx_done-Follows p (err e) = bad_payload-Follows p e
on_tx_done-Follows p (ok td) = tx_result-Follows p td td.result

pub handle_response-Follows : (p : Pending) (frame : Frame) → Follows p (handle_response p frame).1
unfolding handle_response
handle_response-Follows p frame = elim (Bool-cases (frame.type_id == type_ok)) [
  | inl a ↦ rw a (on_ok-Follows p (parse_ok_payload p.cmd_type frame.payload))
  | inr b ↦ elim (Bool-cases (frame.type_id == type_err)) [
    | inl a ↦ rw (b, a) (on_err-Follows p frame.tag (decode_err_payload frame.payload))
    | inr c ↦ elim (Bool-cases (frame.type_id == type_tx_done)) [
      | inl a ↦ rw (b, c, a) (on_tx_done-Follows p (decode_tx_done frame.payload))
      | inr d ↦ rw (b, c, d) (Follows-refl p)
    ]
  ]
]

pub wake_closed-Follows : (p : Pending) → Follows p (wake_closed p)
unfolding wake_closed
wake_closed-Follows p = fail-Follows p _

marked : (e : Option DongloraError) (td : Option TxDone) → (mark_closed e td ≢ none) ⊎ (td ≢ none)
marked none none = inl (λ e. cc)
marked none (some td) = inr (λ e. cc)
marked (some e) td = inl (λ h. cc)

pub wake_dead-Follows : (p : Pending) → Follows p (wake_dead p)
unfolding wake_dead
wake_dead-Follows p = record {
  same_tag = refl;
  same_type = refl;
  stays = λ h. refl;
  settled = λ h. record { unset = λ u. cc; answered = λ t u. marked p.err p.tx_done };
}
