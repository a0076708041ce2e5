-- ===== src/Live/Sentinel.antt =====
-- _DEAD_SENTINEL in the RX queue stays there, whatever frames are dispatched.
use client_py.Prelude.{
  ℕ, ◌≡◌, refl, inl, inr, Bool, true, false, Option, none, some, List, [], get_elem?, ◌∷◌, ◌++◌,
  Bool-cases,
}
use client_py.Python.Result.{Result, ok, err, is_value_error}
use client_py.Python.Float.{Floats}
use client_py.Python.Dict.{lookup}
use client_py.Frame.{Frame}
use client_py.Errors.{CodeOrInt}
use client_py.Events.{decode_err_payload}
use client_py.Events.Rx
use client_py.Events.Rx.{RxEvent}
use client_py.Session.Cases.{dispatch_cases}
use client_py.Session.State.{Session, Pending, RxItem, rx_event, dead_sentinel}
use client_py.Session.Reader.{dispatch, on_rx, on_async_err, correlate, respond_to}

-- Whether _DEAD_SENTINEL stands in the queue, so that next_rx does not wait on it.
unfoldable pub has_sentinel : {Float : Type 0} → List (RxItem Float) → Bool
has_sentinel [] = false
has_sentinel (dead_sentinel ∷ items) = true
has_sentinel (rx_event rx ∷ items) = has_sentinel items

pub has_sentinel-append :
    {Float : Type 0} (xs ys : List (RxItem Float))
    → has_sentinel xs ≡ true
    → has_sentinel (xs ++ ys) ≡ true
unfolding has_sentinel
has_sentinel-append [] ys h = cc
has_sentinel-append (dead_sentinel ∷ xs) ys h = refl
has_sentinel-append (rx_event rx ∷ xs) ys h = has_sentinel-append xs ys h

pub has_sentinel-last :
    {Float : Type 0} (xs : List (RxItem Float)) → has_sentinel (xs ++ dead_sentinel ∷ []) ≡ true
unfolding has_sentinel
has_sentinel-last [] = refl
has_sentinel-last (dead_sentinel ∷ xs) = refl
has_sentinel-last (rx_event rx ∷ xs) = has_sentinel-last xs

module _ {Float : Type 0} where
  on_rx-sentinel :
      (s : Session Float) (r : Result (RxEvent Float))
      → has_sentinel s.rx_queue ≡ true
      → has_sentinel (on_rx s r).1.rx_queue ≡ true
  unfolding on_rx
  on_rx-sentinel s (ok rx) h = has_sentinel-append s.rx_queue _ h
  on_rx-sentinel s (err e) h = elim (Bool-cases (is_value_error e)) [
    | inl v ↦ rw v h
    | inr o ↦ rw o h
  ]

  on_async_err-sentinel :
      (s : Session Float) (r : Result CodeOrInt)
      → has_sentinel s.rx_queue ≡ true
      → has_sentinel (on_async_err s r).1.rx_queue ≡ true
  unfolding on_async_err
  on_async_err-sentinel s (ok code) h = h
  on_async_err-sentinel s (err e) h = h

  respond_to-sentinel :
      (s : Session Float) (ref : ℕ) (o : Option Pending) (frame : Frame)
      → has_sentinel s.rx_queue ≡ true
      → has_sentinel (respond_to s ref o frame).1.rx_queue ≡ true
  respond_to-sentinel s ref none frame h = h
  respond_to-sentinel s ref (some p) frame h = h

  correlate-sentinel :
      (s : Session Float) (o : Option ℕ) (frame : Frame)
      → has_sentinel s.rx_queue ≡ true
      → has_sentinel (correlate s o frame).1.rx_queue ≡ true
  correlate-sentinel s none frame h = h
  correlate-sentinel s (some ref) frame h =
      respond_to-sentinel s ref (get_elem? s.objects ref) frame h

pub dispatch-sentinel :
    (fl : Floats) (frame : Frame) (s : Session fl.Float)
    → has_sentinel s.rx_queue ≡ true
    → has_sentinel (dispatch fl frame s).1.rx_queue ≡ true
dispatch-sentinel fl frame s h =
    dispatch_cases fl frame s (λ es t. has_sentinel t.rx_queue ≡ true)
      (on_rx-sentinel s (Rx.decode fl frame.payload) h)
      (on_async_err-sentinel s (decode_err_payload frame.payload) h) h
      (correlate-sentinel s (lookup frame.tag s.pending) frame h)
