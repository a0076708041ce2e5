-- ===== src/Session/Threads/Keeps.antt =====
-- What every operation of a session keeps.
use client_py.Prelude.{
  ℕ, ◌≡◌, refl, ◌∙◌, Option, none, some, List, [], ◌∷◌, ◌++◌, length, get_elem?, All, All-imp,
  get_elem?-append_length, ◌==◌, Bool-cases, inl, inr,
}
use client_py.Prelude.Int.{pos}
use client_py.Python.Result.{is_value_error, Result, ok, err, ◌>>=◌}
use client_py.Python.Struct.{Bytes}
use client_py.Python.Dict.{Dict, insert, pop, values}
use client_py.Frame.{Cobs, Frame, encode_frame}
use client_py.Errors.{CodeOrInt}
use client_py.Events.Rx.{RxEvent}
use client_py.Session.State.{Session, Pending, RxItem, rx_event, dead_sentinel}
use client_py.Session.Response.{handle_response}
use client_py.Session.Send.{alloc_tag, register_pending, after_write, begin, forget_pending}
use client_py.Session.Reader.{
  pop_item, on_rx, on_async_err, correlate, respond_to, reader_exit, close, wake_dead, wake_closed,
}
use client_py.Session.Tags.{IsTag, following_tag-IsTag}
use client_py.Session.Correlation.{fresh}
use client_py.Session.Threads.Settled.{
  IsSettled, handle_response-Follows, wake_dead-Follows, wake_closed-Follows,
}
use client_py.Session.Threads.Evolves.{
  Evolves, Evolves-refl, Evolves-trans, append-Evolves, set-Evolves, update_all-Evolves,
}

-- The tag is valid, and the reference is that of an object with this tag.
abbrev pub Names : List Pending → ℕ × ℕ → Type 0
Names objects (tag, ref) =
    IsTag tag × ((p : Pending) × (get_elem? objects ref ≡ some p) × (p.tag ≡ tag))

-- The counter is at a valid tag, every registration names an object, and every object is settled.
pub record IsWf {Float : Type 0} (s : Session Float) : Type 0 where
  pub tagged : IsTag s.next_tag
  pub registered : All (Names s.objects) s.pending
  pub settled : All IsSettled s.objects

Names-Evolves : (xs ys : List Pending) → Evolves xs ys → (e : ℕ × ℕ) → Names xs e → Names ys e
Names-Evolves xs ys ev (tag, ref) (valid, (p, at, e)) =
    let (q, at', f) = ev.kept ref p at in (valid, (q, at', f.same_tag ∙ e))

All-insert : (P : ℕ × ℕ → Type 0) (k v : ℕ) (d : Dict ℕ) → P (k, v) → All P d → All P (insert k v d)
unfolding insert
All-insert P k v [] h hs = (h, tt)
All-insert P k v ((j, w) ∷ d) h hs = elim (Bool-cases (j == k)) [
  | inl same ↦ rw same (h, hs.1)
  | inr other ↦ rw other (hs.0, All-insert P k v d h hs.1)
]

All-pop : (P : ℕ × ℕ → Type 0) (k : ℕ) (d : Dict ℕ) → All P d → All P (pop k d)
unfolding pop
All-pop P k [] hs = hs
All-pop P k ((j, w) ∷ d) hs = elim (Bool-cases (j == k)) [
  | inl same ↦ rw same (All-pop P k d hs.1)
  | inr other ↦ rw other (hs.0, All-pop P k d hs.1)
]

fresh-IsSettled : (tag cmd_type : ℕ) → IsSettled (fresh tag cmd_type)
fresh-IsSettled tag cmd_type = record { unset = λ h. (refl, refl); answered = λ t h. cc }

module _ {Float : Type 0} where
  -- The objects evolve, and the registrations and the counter stay good.
  pub record Keeps (s t : Session Float) : Type 0 where
    pub evolves : Evolves s.objects t.objects
    pub wf : IsWf s → IsWf t

  pub Keeps-refl : (s : Session Float) → Keeps s s
  Keeps-refl s = record { evolves = Evolves-refl s.objects; wf = λ h. h }

  -- New objects under the same registrations and the same counter.
  pub Keeps-objects :
      (s t : Session Float)
      → t.pending ≡ s.pending
      → t.next_tag ≡ s.next_tag
      → Evolves s.objects t.objects
      → Keeps s t
  Keeps-objects s t same_pending same_tag ev = record {
    evolves = ev;
    wf = λ h. record {
      tagged = rw same_tag h.tagged;
      registered = rw same_pending (
          All-imp (Names s.objects) (Names t.objects) s.pending
            (Names-Evolves s.objects t.objects ev) h.registered);
      settled = ev.settled h.settled;
    };
  }

  Keeps-trans : (s t u : Session Float) → Keeps s t → Keeps t u → Keeps s u
  Keeps-trans s t u f g = record {
    evolves = Evolves-trans s.objects t.objects u.objects f.evolves g.evolves;
    wf = λ h. g.wf (f.wf h);
  }

  -- Fewer registrations.
  pub forget_pending-Keeps : (tag : ℕ) (s : Session Float) → Keeps s (forget_pending tag s)
  unfolding forget_pending
  forget_pending-Keeps tag s = record {
    evolves = Evolves-refl s.objects;
    wf = λ h. record {
      tagged = h.tagged;
      registered = All-pop (Names s.objects) tag s.pending h.registered;
      settled = h.settled;
    };
  }

  -- A tag is taken and registered for a new object.
  registers-Keeps :
      (cmd_type : ℕ) (s : Session Float)
      → Keeps s (register_pending s.next_tag cmd_type (alloc_tag s).1).1
  unfolding register_pending alloc_tag
  registers-Keeps cmd_type s =
      let p = fresh s.next_tag cmd_type in
      let ev = append-Evolves s.objects p (fresh-IsSettled s.next_tag cmd_type) in
      record {
        evolves = ev;
        wf = λ h. record {
          tagged = following_tag-IsTag s.next_tag h.tagged;
          registered =
              All-insert (Names (s.objects ++ p ∷ [])) s.next_tag (length s.objects) s.pending
                (h.tagged, (p, get_elem?-append_length s.objects p [], refl))
                (All-imp (Names s.objects) (Names (s.objects ++ p ∷ [])) s.pending
                  (Names-Evolves s.objects (s.objects ++ p ∷ []) ev) h.registered);
          settled = ev.settled h.settled;
        };
      }

  after_write-Keeps :
      (tag ref : ℕ) (wire : Result Bytes) (write : Result (Unit {0})) (s : Session Float)
      → Keeps s (after_write tag ref wire write s).1
  unfolding after_write
  after_write-Keeps tag ref (err e) write s = forget_pending-Keeps tag s
  after_write-Keeps tag ref (ok wire) (err e) s =
      Keeps-trans s (record s { written = s.written ++ wire ∷ [] }) _
        (Keeps-objects s _ refl refl (Evolves-refl s.objects))
        (forget_pending-Keeps tag (record s { written = s.written ++ wire ∷ [] }))
  after_write-Keeps tag ref (ok wire) (ok r) s =
      Keeps-objects s _ refl refl (Evolves-refl s.objects)

  pub begin-Keeps :
      (cobs : Cobs) (cmd_type : ℕ) (payload : Result Bytes) (write : Result (Unit {0}))
      (s : Session Float)
      → Keeps s (begin cobs cmd_type payload write s).1
  unfolding begin alloc_tag register_pending
  begin-Keeps cobs cmd_type payload write s =
      let s2 = (register_pending s.next_tag cmd_type (alloc_tag s).1).1 in
      Keeps-trans s s2 _ (registers-Keeps cmd_type s) (
        after_write-Keeps s.next_tag (length s.objects)
          (payload >>= λ bs. encode_frame cobs (pos cmd_type) (pos s.next_tag) bs) write s2)

  respond_to-Keeps :
      (s : Session Float) (ref : ℕ) (o : Option Pending) (frame : Frame)
      → get_elem? s.objects ref ≡ o
      → Keeps s (respond_to s ref o frame).1
  respond_to-Keeps s ref none frame h = Keeps-refl s
  respond_to-Keeps s ref (some p) frame h =
      Keeps-objects s _ refl refl (
        set-Evolves s.objects ref p (handle_response p frame).1 h (handle_response-Follows p frame))

  pub correlate-Keeps :
      (s : Session Float) (o : Option ℕ) (frame : Frame) → Keeps s (correlate s o frame).1
  correlate-Keeps s none frame = Keeps-refl s
  correlate-Keeps s (some ref) frame = respond_to-Keeps s ref (get_elem? s.objects ref) frame refl

  pub on_rx-Keeps : (s : Session Float) (r : Result (RxEvent Float)) → Keeps s (on_rx s r).1
  unfolding on_rx
  on_rx-Keeps s (ok rx) = Keeps-objects s _ refl refl (Evolves-refl s.objects)
  on_rx-Keeps s (err e) = elim (Bool-cases (is_value_error e)) [
    | inl v ↦ rw v (Keeps-objects s _ refl refl (Evolves-refl s.objects))
    | inr o ↦ rw o (Keeps-refl s)
  ]

  pub on_async_err-Keeps : (s : Session Float) (r : Result CodeOrInt) → Keeps s (on_async_err s r).1
  unfolding on_async_err
  on_async_err-Keeps s (ok code) = Keeps-objects s _ refl refl (Evolves-refl s.objects)
  on_async_err-Keeps s (err e) = Keeps-refl s

  pub reader_exit-Keeps : (s : Session Float) → Keeps s (reader_exit s)
  unfolding reader_exit
  reader_exit-Keeps s =
      let ev = update_all-Evolves wake_dead wake_dead-Follows s.objects (values s.pending) in
      record {
        evolves = ev;
        wf = λ h. record { tagged = h.tagged; registered = tt; settled = ev.settled h.settled };
      }

  pub close-Keeps : (s : Session Float) → Keeps s (close s)
  unfolding close
  close-Keeps s =
      let ev = update_all-Evolves wake_closed wake_closed-Follows s.objects (values s.pending) in
      record {
        evolves = ev;
        wf = λ h. record { tagged = h.tagged; registered = tt; settled = ev.settled h.settled };
      }

  pub pop_item-Keeps :
      (s : Session Float) (items : List (RxItem Float)) → Keeps s (pop_item s items).1
  pop_item-Keeps s [] = Keeps-refl s
  pop_item-Keeps s (dead_sentinel ∷ items) = Keeps-objects s _ refl refl (Evolves-refl s.objects)
  pop_item-Keeps s (rx_event rx ∷ items) = Keeps-objects s _ refl refl (Evolves-refl s.objects)
