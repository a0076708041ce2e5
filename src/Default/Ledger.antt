-- ===== src/Default/Ledger.antt =====
-- The dongles that the module opens and closes.
use client_py.Prelude.{
  ℕ, zero, suc, ◌≡◌, ◌≢◌, refl, sym, subst, ◌∙◌, Bool, Option, none, some, List, [], ◌∷◌, ◌++◌,
  append-nil, arith,
}
use client_py.Python.Struct.{Bytes}
use client_py.Dongle.{Ended, finished, raised, crashed}
use client_py.Default.{
  Dongles, Module, keep_default, or_connect, get_default, cleanup, on_default, close_suppressed, tx,
  rx, recv, Use, uses_tx, uses_rx, uses_recv, uses_close, use_once, use_all, cleanups, leave,
}

pub data Act (D : Type 0) : Type 0 where
  opened closed : D → Act D

abbrev pub opened_by : {D : Type 0} → Ended D → List (Act D)
opened_by (finished d) = opened d ∷ []
opened_by (raised e) = []
opened_by (crashed e) = []

-- A record in the world of the dongles that connect() returned and of those that were closed, in order.
pub record IsLedger {D P W : Type 0} (api : Dongles D P W) (ledger : W → List (Act D))
    : Type 0 where
  pub connects : (w : W) → ledger (api.connect w).1 ≡ ledger w ++ opened_by (api.connect w).0
  pub transmits :
      (d : D) (bytes : Bytes) (skip_cad : Bool) (w : W)
      → ledger (api.tx d bytes skip_cad w).1 ≡ ledger w
  pub receives_all : (d : D) (w : W) → ledger (api.rx d w).1 ≡ ledger w
  pub receives : (d : D) (w : W) → ledger (api.recv d w).1 ≡ ledger w
  pub closes : (d : D) (w : W) → ledger (api.close d w).1 ≡ ledger w ++ closed d ∷ []

-- Every dongle of the ledger is closed before the next one is opened; the second argument is the one that
-- is open at its end.
pub data OneByOne {D : Type 0} : List (Act D) → Option D → Type 0 where
  untouched : OneByOne [] none
  opening :
      {acts : List (Act D)} (d : D) → OneByOne acts none → OneByOne (acts ++ opened d ∷ []) (some d)
  closing :
      {acts : List (Act D)} (d : D) → OneByOne acts (some d) → OneByOne (acts ++ closed d ∷ []) none

module _ {D P W : Type 0} (api : Dongles D P W) (ledger : W → List (Act D))
    (laws : IsLedger api ledger) where
  -- The ledger of the module, and _cleanup registered if there is a default dongle.
  pub record IsSound (m : Module D W) : Type 0 where
    pub one_by_one : OneByOne (ledger m.world) m.default
    pub will_clean : m.default ≢ none → m.registered ≢ 0

  same_ledger :
      (m : Module D W) (w : W)
      → ledger w ≡ ledger m.world
      → IsSound m
      → IsSound (record m { world = w })
  same_ledger m w e h = record {
    one_by_one = subst (λ acts. OneByOne acts m.default) (sym e) h.one_by_one;
    will_clean = h.will_clean;
  }

  keep_default-IsSound :
      (m : Module D W) (r : Ended D × W)
      → IsSound m
      → m.default ≡ none
      → ledger r.1 ≡ ledger m.world ++ opened_by r.0
      → IsSound (keep_default api m r).1
  keep_default-IsSound m (finished d, w) h fresh e = record {
    one_by_one =
        subst (λ acts. OneByOne acts (some d)) (sym e)
          (opening d (subst (OneByOne (ledger m.world)) fresh h.one_by_one));
    will_clean = λ ne. omega arith;
  }
  keep_default-IsSound m (raised x, w) h fresh e =
      same_ledger m w (e ∙ append-nil (ledger m.world)) h
  keep_default-IsSound m (crashed x, w) h fresh e =
      same_ledger m w (e ∙ append-nil (ledger m.world)) h

  or_connect-IsSound :
      (m : Module D W) (o : Option D) → m.default ≡ o → IsSound m → IsSound (or_connect api m o).1
  or_connect-IsSound m (some d) e h = h
  or_connect-IsSound m none e h =
      keep_default-IsSound m (api.connect m.world) h e (laws.connects m.world)

  on_default-IsSound :
      {A : Type 0} (method : D → W → Ended A × W) (r : Ended D × Module D W)
      → ((d : D) (w : W) → ledger (method d w).1 ≡ ledger w)
      → IsSound r.1
      → IsSound (on_default api method r).1
  on_default-IsSound method (finished d, m) quiet h = same_ledger m _ (quiet d m.world) h
  on_default-IsSound method (raised e, m) quiet h = h
  on_default-IsSound method (crashed e, m) quiet h = h

  get_default-IsSound : (m : Module D W) → IsSound m → IsSound (get_default api m).1
  unfolding get_default
  get_default-IsSound m h = or_connect-IsSound m m.default refl h

  close_suppressed-OneByOne :
      (o : Option D) (w : W)
      → OneByOne (ledger w) o
      → OneByOne (ledger (close_suppressed api o w)) none
  close_suppressed-OneByOne none w h = h
  close_suppressed-OneByOne (some d) w h =
      subst (λ acts. OneByOne acts none) (sym (laws.closes d w)) (closing d h)

  cleanup-IsSound : (m : Module D W) → IsSound m → IsSound (cleanup api m)
  unfolding cleanup
  cleanup-IsSound m h = record {
    one_by_one = close_suppressed-OneByOne m.default m.world h.one_by_one;
    will_clean = λ ne. absurd (ne refl);
  }

  use_once-IsSound : (u : Use) (m : Module D W) → IsSound m → IsSound (use_once api u m)
  unfolding use_once tx rx recv
  use_once-IsSound (uses_tx bytes skip_cad) m h =
      on_default-IsSound (λ d w. api.tx d bytes skip_cad w) (get_default api m)
        (λ d w. laws.transmits d bytes skip_cad w) (get_default-IsSound m h)
  use_once-IsSound uses_rx m h =
      on_default-IsSound api.rx (get_default api m) laws.receives_all (get_default-IsSound m h)
  use_once-IsSound uses_recv m h =
      on_default-IsSound api.recv (get_default api m) laws.receives (get_default-IsSound m h)
  use_once-IsSound uses_close m h = cleanup-IsSound m h

  use_all-IsSound : (us : List Use) (m : Module D W) → IsSound m → IsSound (use_all api us m)
  unfolding use_all
  use_all-IsSound [] m h = h
  use_all-IsSound (u ∷ us) m h = use_all-IsSound us (use_once api u m) (use_once-IsSound u m h)

  none_of_zero : (o : Option D) → (o ≢ none → zero ≢ 0) → o ≡ none
  none_of_zero none h = refl
  none_of_zero (some d) h = absurd (h (λ e. cc) refl)

  cleanups-closes :
      (n : ℕ) (m : Module D W)
      → (m.default ≢ none → n ≢ 0)
      → IsSound m
      → ((cleanups api n m).default ≡ none) × OneByOne (ledger (cleanups api n m).world) none
  unfolding cleanup
  cleanups-closes zero m some_left h =
      let e = none_of_zero m.default some_left in
      (e, subst (OneByOne (ledger m.world)) e h.one_by_one)
  cleanups-closes (suc n) m some_left h =
      cleanups-closes n (cleanup api m) (λ ne. absurd (ne refl)) (cleanup-IsSound m h)

  -- With a ledger in the world of the dongles that connect() returned and of those that were closed, which
  -- no other call changes: from a fresh module with an empty ledger, over any calls of tx, rx, recv and
  -- close, whatever they raise, at most one default dongle is open at a time, and each one is closed before
  -- the next one is connected; _default is the one that is open; and when the process leaves, _cleanup has
  -- closed the last one.
  pub use_all-OneByOne :
      (us : List Use) (w : W)
      → ledger w ≡ []
      → let m = use_all api us (record { default = none; registered = 0; world = w }) in
        OneByOne (ledger m.world) m.default × OneByOne (ledger (leave api m).world) none
  unfolding leave
  use_all-OneByOne us w empty =
      let fresh : Module D W = record { default = none; registered = 0; world = w } in
      let sound = use_all-IsSound us fresh (record {
        one_by_one = subst (λ acts. OneByOne acts none) (sym empty) untouched;
        will_clean = λ ne. absurd (ne refl);
      }) in
      let m = use_all api us fresh in
      (sound.one_by_one, (cleanups-closes m.registered m sound.will_clean sound).1)
