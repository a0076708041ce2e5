-- ===== src/Live/Packets.antt =====
-- The packets that frames put into the RX queue.
use client_py.Prelude.{◌≡◌, refl, ◌∙◌, ap, sym, List, [], ◌∷◌, ◌++◌, map, append_assoc, append-nil}
use client_py.Python.Float.{Floats}
use client_py.Frame.{Frame}
use client_py.Events.Rx.{RxEvent}
use client_py.Session.State.{Session, rx_event}
use client_py.Session.Cases.{packets_of}
use client_py.Session.Loop.Runs.{dispatch_all}
use client_py.Session.Threads.Queues.{dispatch-Puts}

-- The packets that the frames carry.
abbrev pub all_packets : (fl : Floats) → List Frame → List (RxEvent fl.Float)
all_packets fl [] = []
all_packets fl (f ∷ fs) = packets_of fl f ++ all_packets fl fs

map-append : {A B : Type 0} (f : A → B) (xs ys : List A) → map f (xs ++ ys) ≡ map f xs ++ map f ys
map-append f [] ys = refl
map-append f (x ∷ xs) ys = ap (λ l. f x ∷ l) (map-append f xs ys)

module _ (fl : Floats) where
  pub dispatch_all-queue :
      (fs : List Frame) (s : Session fl.Float)
      → (dispatch_all fl fs s).rx_queue ≡ s.rx_queue ++ map rx_event (all_packets fl fs)
  dispatch_all-queue [] s = sym (append-nil s.rx_queue)
  dispatch_all-queue (f ∷ fs) s =
      dispatch_all-queue fs _
      ∙ ap (λ q. q ++ map rx_event (all_packets fl fs)) (dispatch-Puts fl f s).queue
      ∙ append_assoc s.rx_queue (map rx_event (packets_of fl f)) _
      ∙ ap (λ l. s.rx_queue ++ l) (sym (map-append rx_event (packets_of fl f) (all_packets fl fs)))
