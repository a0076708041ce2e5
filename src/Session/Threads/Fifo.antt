-- ===== src/Session/Threads/Fifo.antt =====
-- The queue of packets against a first-in first-out queue: what callers get is what has arrived, in order.
use client_py.Prelude.{
  ◌≡◌, refl, sym, subst, ◌∙◌, ap, true, false, Bool, Option, none, some, List, [], ◌∷◌, ◌++◌, map,
  append_assoc, append-nil,
}
use client_py.Python.Float.{Floats}
use client_py.Frame.{Cobs}
use client_py.Events.Rx.{RxEvent}
use client_py.Session.State.{Session, RxItem, rx_event, dead_sentinel}
use client_py.Session.Send.{forget_pending}
use client_py.Session.Reader.{pop_item, reader_exit, close, next_rx, drain_async_errors}
use client_py.Session.Threads.{
  Step, begins, finishes, dispatches, bad_frame, exits, takes, drains, closes, Reach, start, later,
  to_list,
}
use client_py.Session.Cases.{packets_of}
use client_py.Session.Threads.Queues.{SameQueue, begin-SameQueue, Puts, dispatch-Puts}

-- `_rx_queue` while the packets `es` wait, before and after the end of the reader thread.
abbrev pub queue_of : {Float : Type 0} → Bool → List (RxEvent Float) → List (RxItem Float)
queue_of false es = map rx_event es
queue_of true es = map rx_event es ++ dead_sentinel ∷ []

-- The packets `es` wait: those that have arrived are those that callers have got, then these.
pub record Waits {Float : Type 0} (arrived got : List (RxEvent Float)) (s : Session Float)
    (es : List (RxEvent Float)) : Type 0 where
  pub order : arrived ≡ got ++ es
  pub queue : s.rx_queue ≡ queue_of s.reader_dead es

map_append {ℓ κ} :
    {A : Type ℓ} {B : Type κ} (f : A → B) (xs ys : List A) → map f (xs ++ ys) ≡ map f xs ++ map f ys
map_append f [] ys = refl
map_append f (x ∷ xs) ys = ap (λ l. f x ∷ l) (map_append f xs ys)

module _ {Float : Type 0} (arrived got es : List (RxEvent Float)) (s : Session Float)
    (h : Waits arrived got s es) where
  SameQueue-Waits : (t : Session Float) → SameQueue s t → Waits (arrived ++ []) (got ++ []) t es
  SameQueue-Waits t q = record {
    order = append-nil arrived ∙ h.order ∙ ap (λ l. l ++ es) (sym (append-nil got));
    queue = q.queue ∙ h.queue ∙ ap (λ b. queue_of b es) (sym q.dead);
  }

  Puts-Waits :
      (t : Session Float) (new : List (RxEvent Float))
      → s.reader_dead ≡ false
      → Puts s t new
      → Waits (arrived ++ new) (got ++ []) t (es ++ new)
  Puts-Waits t new alive q = record {
    order =
        ap (λ l. l ++ new) h.order
        ∙ append_assoc got es new
        ∙ ap (λ l. l ++ (es ++ new)) (sym (append-nil got));
    queue =
        q.queue
        ∙ ap (λ l. l ++ map rx_event new) (h.queue ∙ ap (λ b. queue_of b es) alive)
        ∙ sym (map_append rx_event es new)
        ∙ ap (λ b. queue_of b (es ++ new)) (sym (q.dead ∙ alive));
  }

  exit-Waits : s.reader_dead ≡ false → Waits (arrived ++ []) (got ++ []) (reader_exit s) es
  unfolding reader_exit
  exit-Waits alive = record {
    order = append-nil arrived ∙ h.order ∙ ap (λ l. l ++ es) (sym (append-nil got));
    queue = ap (λ l. l ++ dead_sentinel ∷ []) (h.queue ∙ ap (λ b. queue_of b es) alive);
  }

-- The oldest of the packets.
abbrev pub oldest {ℓ} : {A : Type ℓ} → List A → Option A
oldest [] = none
oldest (x ∷ xs) = some x

abbrev rest {ℓ} : {A : Type ℓ} → List A → List A
rest [] = []
rest (x ∷ xs) = xs

module _ {Float : Type 0} where
  pop_item-oldest :
      (s : Session Float) (dead : Bool) (es : List (RxEvent Float))
      → (pop_item s (queue_of dead es)).0 ≡ oldest es
  pop_item-oldest s false [] = refl
  pop_item-oldest s false (e ∷ es) = refl
  pop_item-oldest s true [] = refl
  pop_item-oldest s true (e ∷ es) = refl

  pop_item-rest :
      (s : Session Float) (dead : Bool) (es : List (RxEvent Float))
      → s.rx_queue ≡ queue_of dead es
      → ((pop_item s (queue_of dead es)).1.rx_queue ≡ queue_of dead (rest es))
        × ((pop_item s (queue_of dead es)).1.reader_dead ≡ s.reader_dead)
  pop_item-rest s false [] h = (h, refl)
  pop_item-rest s false (e ∷ es) h = (refl, refl)
  pop_item-rest s true [] h = (refl, refl)
  pop_item-rest s true (e ∷ es) h = (refl, refl)

  oldest-rest : (es : List (RxEvent Float)) → es ≡ to_list (oldest es) ++ rest es
  oldest-rest [] = refl
  oldest-rest (e ∷ es) = refl

  take-Waits :
      (arrived got es : List (RxEvent Float)) (s : Session Float)
      → Waits arrived got s es
      → Waits (arrived ++ []) (got ++ to_list (next_rx s).0) (next_rx s).1 (rest es)
  unfolding next_rx
  take-Waits arrived got es s h =
      let (queue, dead) = pop_item-rest s s.reader_dead es h.queue in
      let moved : Waits (arrived ++ []) (got ++ to_list (pop_item s (queue_of s.reader_dead es)).0)
          (pop_item s (queue_of s.reader_dead es)).1 (rest es) =
        record {
          order =
              append-nil arrived
              ∙ h.order
              ∙ ap (λ l. got ++ l) (oldest-rest es)
              ∙ sym (append_assoc got (to_list (oldest es)) (rest es))
              ∙ ap (λ o. got ++ to_list o ++ rest es) (sym (pop_item-oldest s s.reader_dead es));
          queue = queue ∙ ap (λ b. queue_of b (rest es)) (sym dead);
        } in
      subst
        (λ q. Waits (arrived ++ []) (got ++ to_list (pop_item s q).0) (pop_item s q).1 (rest es))
        (sym h.queue) moved

module _ (cobs : Cobs) (fl : Floats) where
  Step-Waits :
      {s t : Session fl.Float} {a g : List (RxEvent fl.Float)}
      (arrived got es : List (RxEvent fl.Float))
      → Step cobs fl s a g t
      → Waits arrived got s es
      → (es' : List (RxEvent fl.Float)) × Waits (arrived ++ a) (got ++ g) t es'
  unfolding drain_async_errors close forget_pending
  Step-Waits {s} arrived got es (begins cmd_type payload write) h =
      (es, SameQueue-Waits arrived got es s h _ (begin-SameQueue cobs cmd_type payload write s))
  Step-Waits {s} arrived got es (finishes tag) h =
      (es, SameQueue-Waits arrived got es s h _ (record { queue = refl; dead = refl }))
  Step-Waits {s} arrived got es (dispatches frame alive) h = (
    es ++ packets_of fl frame,
    Puts-Waits arrived got es s h _ _ alive (dispatch-Puts fl frame s),
  )
  Step-Waits {s} arrived got es (bad_frame alive) h =
      (es, SameQueue-Waits arrived got es s h _ (record { queue = refl; dead = refl }))
  Step-Waits {s} arrived got es (exits alive) h = (es, exit-Waits arrived got es s h alive)
  Step-Waits {s} arrived got es takes h = (rest es, take-Waits arrived got es s h)
  Step-Waits {s} arrived got es drains h =
      (es, SameQueue-Waits arrived got es s h _ (record { queue = refl; dead = refl }))
  Step-Waits {s} arrived got es closes h =
      (es, SameQueue-Waits arrived got es s h _ (record { queue = refl; dead = refl }))

  Reach-Waits :
      {arrived got : List (RxEvent fl.Float)} {s : Session fl.Float}
      → Reach cobs fl arrived got s
      → (es : List (RxEvent fl.Float)) × Waits arrived got s es
  Reach-Waits start = ([], record { order = refl; queue = refl })
  Reach-Waits (later {arrived} {got} r step) =
      let (es, h) = Reach-Waits r in Step-Waits arrived got es step h

  -- The session refines a first-in first-out queue of packets: in every state that its threads can come
  -- to, before and after the end of the reader thread, the packets that callers have got, then those that
  -- wait, are those that have arrived, in order; next_rx gives the oldest packet that waits, and nothing only
  -- where none waits.
  pub rx_refines_fifo :
      {arrived got : List (RxEvent fl.Float)} {s : Session fl.Float}
      → Reach cobs fl arrived got s
      → (es : List (RxEvent fl.Float)) × (arrived ≡ got ++ es)
        × (s.rx_queue ≡ queue_of s.reader_dead es)
        × ((next_rx s).0 ≡ oldest es)
  unfolding next_rx
  rx_refines_fifo {s} r =
      let (es, h) = Reach-Waits r in
      (
        es,
        h.order,
        h.queue,
        ap (λ q. (pop_item s q).0) h.queue ∙ pop_item-oldest s s.reader_dead es,
      )
