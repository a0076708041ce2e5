-- ===== src/Live/Methods.antt =====
-- What any methods of a Dongle leave behind on a live session.
use client_py.Prelude.{ℕ, ◌≡◌, refl, inl, inr, Bool, true, Option, List, [], ◌∷◌, Bool-cases, arith}
use client_py.Python.Result.{Result, ok, err, is_os_error}
use client_py.Python.Struct.{Bytes}
use client_py.Python.Float.{Floats}
use client_py.Frame.{Cobs, Read}
use client_py.Commands.{type_tx, type_set_config, encode_tx_payload, encode_set_config_payload}
use client_py.Modulation.{Modulation}
use client_py.Session.State.{RxItem, rx_event, dead_sentinel}
use client_py.Session.Send.{finish, finish_tx}
use client_py.Session.Reader.{reader_exit, next_rx, pop_item, close}
use client_py.Dongle.{Dongle, Ended, finished, raised, crashed}
use client_py.Dongle.Methods.Keeps.{Preserves}
use client_py.Dongle.Methods.{Method, perform_all}
use client_py.Dongle.Methods.Perform.{Holds, perform_all-Kept}
use client_py.Connect.Open.{Up}
use client_py.Connect.Open.Keeps.{IsKept, open_and_init-kept}
use client_py.Live.{
  Device, System, reader_runs, send_and_wait, send_tx, set_config, close_session, encoded_first,
  with_new, take, take_from, link, attempt_of, services, done,
}
use client_py.Live.Sentinel.{has_sentinel, has_sentinel-last}
use client_py.Live.Within.{reader_runs-Within}
use client_py.Live.Tidy.{Tidy, waits-Tidy}

module _ (cobs : Cobs) (fl : Floats) {D : Type 0} (device : Device D) where
  send_and_wait-Tidy :
      (cmd_type : ℕ) (payload : Result Bytes) (w : System fl.Float D)
      → Tidy w
      → Tidy (send_and_wait cobs fl device cmd_type payload w).1
  unfolding send_and_wait
  send_and_wait-Tidy cmd_type payload w h =
      waits-Tidy cobs fl device finish cmd_type payload w (λ tag ref s. unfold finish in refl) h

  send_tx-Tidy :
      (bs : Bytes) (skip_cad : Bool) (w : System fl.Float D)
      → Tidy w
      → Tidy (send_tx cobs fl device bs skip_cad w).1
  unfolding send_tx
  send_tx-Tidy bs skip_cad w h =
      waits-Tidy cobs fl device finish_tx type_tx (encode_tx_payload bs skip_cad) w
        (λ tag ref s. unfold finish_tx in refl) h

  encoded_first-Tidy :
      (payload : Result Bytes) (w : System fl.Float D)
      → Tidy w
      → Tidy (encoded_first cobs fl device payload w).1
  encoded_first-Tidy (ok payload) w h = send_and_wait-Tidy type_set_config (ok payload) w h
  encoded_first-Tidy (err e) w h = h

  set_config-Tidy :
      (m : Modulation) (w : System fl.Float D) → Tidy w → Tidy (set_config cobs fl device m w).1
  unfolding set_config
  set_config-Tidy m w h = encoded_first-Tidy (encode_set_config_payload m) w h

  close_session-Tidy : (w : System fl.Float D) → Tidy w → Tidy (close_session cobs fl device w)
  unfolding close_session close reader_exit
  close_session-Tidy w h = elim (Bool-cases w.session.reader_dead) [
    | inl dead ↦
        simp dead (record { idle = refl; tagged = h.tagged; poisoned = λ d. h.poisoned dead })
    | inr alive ↦ simp alive (record {
      idle = refl;
      tagged = h.tagged;
      poisoned = λ d. has_sentinel-last w.session.rx_queue;
    })
  ]

  pop_item-Tidy :
      (w : System fl.Float D) (items : List (RxItem fl.Float))
      → Tidy w
      → (w.session.reader_dead ≡ true → has_sentinel items ≡ true)
      → Tidy (record w { session = (pop_item w.session items).1 })
  unfolding has_sentinel
  pop_item-Tidy w [] h p = h
  pop_item-Tidy w (dead_sentinel ∷ items) h p = record {
    idle = h.idle;
    tagged = h.tagged;
    poisoned = λ d. has_sentinel-last items;
  }
  pop_item-Tidy w (rx_event rx ∷ items) h p = record {
    idle = h.idle;
    tagged = h.tagged;
    poisoned = p;
  }

  take-Tidy : (w : System fl.Float D) → Tidy w → Tidy (take cobs fl device w).1
  unfolding next_rx
  take-Tidy w h = pop_item-Tidy w w.session.rx_queue h h.poisoned

  reader_runs-Tidy :
      (reads : List Read) (w : System fl.Float D)
      → Tidy w
      → Tidy (reader_runs cobs fl device reads w)
  reader_runs-Tidy reads w h =
      let within =
        reader_runs-Within cobs fl [] w.session.next_tag device reads w
          (record { left = inl h.idle; counter = refl; poisoned = h.poisoned }) in
      record {
        idle = elim within.left [ inl a ↦ a | inr b ↦ b ];
        tagged = rw within.counter h.tagged;
        poisoned = within.poisoned;
      }

  take_from-Tidy :
      (items : List (RxItem fl.Float)) (w : System fl.Float D)
      → Tidy w
      → Tidy (take_from cobs fl device items w).1
  take_from-Tidy [] w h = take-Tidy _ (
      reader_runs-Tidy _ (record w { device = (device.listen w.device).1 })
        (record { idle = h.idle; tagged = h.tagged; poisoned = h.poisoned }))
  take_from-Tidy (item ∷ items) w h = take-Tidy w h

  done-Tidy : {A : Type 0} (r : Ended A × System fl.Float D) → Tidy r.1 → Tidy (done r).1
  done-Tidy (finished a, w) h = h
  done-Tidy (raised e, w) h = h
  done-Tidy (crashed e, w) h = h

  elsewhere : (w : System fl.Float D) (d : D) → Tidy w → Tidy (record w { device = d })
  elsewhere w d h = record { idle = h.idle; tagged = h.tagged; poisoned = h.poisoned }

  with_new-Tidy :
      (w : System fl.Float D) (r : Ended (Unit {0}) × D)
      → Tidy w
      → Tidy (with_new cobs fl device w r).1
  with_new-Tidy w (finished r, d) h = record {
    idle = refl;
    tagged = omega arith;
    poisoned = λ dead. cc;
  }
  with_new-Tidy w (raised e, d) h = elsewhere w d h
  with_new-Tidy w (crashed e, d) h = elsewhere w d h

  link-IsKept : IsKept (link cobs fl device) Tidy
  link-IsKept = record {
    opens = λ w h. with_new-Tidy w (device.open_transport w.device) h;
    asks = λ w h. send_and_wait-Tidy _ _ w h;
    configures = set_config-Tidy;
    closes = close_session-Tidy;
  }

  attempt_of-Tidy :
      (w : System fl.Float D) (r : Ended Up × System fl.Float D)
      → Tidy w
      → Tidy r.1
      → Tidy (attempt_of cobs fl device w r).1
  attempt_of-Tidy w (finished (i, applied), w1) h h1 = h1
  attempt_of-Tidy w (raised e, w1) h h1 = elsewhere w w1.device h
  attempt_of-Tidy w (crashed e, w1) h h1 = elim (Bool-cases (is_os_error e)) [
    | inl os ↦ rw os (elsewhere w w1.device h)
    | inr o ↦ rw o (elsewhere w w1.device h)
  ]

  services-Preserves :
      (auto_configure : Bool) (config : Option Modulation)
      → Preserves (services cobs fl device auto_configure config) Tidy
  services-Preserves auto_configure config = record {
    transmits = send_tx-Tidy;
    configures = λ m w h. done-Tidy (set_config cobs fl device m w) (set_config-Tidy m w h);
    starts = λ w h. done-Tidy _ (send_and_wait-Tidy _ _ w h);
    stops = λ w h. done-Tidy _ (send_and_wait-Tidy _ _ w h);
    pings = λ w h. done-Tidy _ (send_and_wait-Tidy _ _ w h);
    takes = λ w h. take_from-Tidy w.session.rx_queue w h;
    closes = close_session-Tidy;
    reopens = λ w h.
        attempt_of-Tidy w _ h
          (open_and_init-kept (link cobs fl device) Tidy link-IsKept auto_configure config w h);
    waits = λ w h. elsewhere w _ h;
  }

  -- Whatever the device does and whatever a COBS codec is used: behind any methods of a Dongle,
  -- whether they return or raise, if each of them ends, no command is registered, the tag counter
  -- is valid, and if the reader thread has ended, the sentinel for that stands in the queue,
  -- provided that this was so before.
  pub perform_all-Tidy :
      (auto_configure : Bool) (config : Option Modulation) (n : ℕ) (ms : List Method)
      (d : Dongle (System fl.Float D))
      → Tidy d.world
      → Holds Tidy (perform_all (services cobs fl device auto_configure config) n ms d)
  perform_all-Tidy auto_configure config n ms d h =
      perform_all-Kept (services cobs fl device auto_configure config) Tidy
        (services-Preserves auto_configure config) n ms d h
