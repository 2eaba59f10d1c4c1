-- ===== src/Backend/Offer/Kept.antt =====
-- hammer/hammeregg_backend/src/net.rs: `start_pion_server` and the desktop's remote.
use hammeregg.Prelude.{
  ℕ, ◌≡◌, refl, ◌∙◌, arith, ok, err, panic, Result, some, Option, none, nat_keys,
}
use hammeregg.Prelude.Stateful.Triples.{After, Triple, Triple-bind, Triple-pure}
use hammeregg.Core.Packet.{Bytes}
use hammeregg.Backend.Stream.{MonitorBounds}
use hammeregg.Backend.Host.{
  PeerConnection, PionServer, RemoteConnection, Host, Services, Work, drop_remote, thread_ends,
}
use hammeregg.Backend.Pion.{
  new_notifier, init_connection, parse_offer, signal, answer_offer, start, stream_video,
  start_pion_server, store_answer,
}
use hammeregg.Backend.Handles.Servers.{drop_remote-remote, end_server-remote}
use hammeregg.Backend.Handles.Initial.{on_failure-Triple}

-- The desktop is connected to this remote, or to none.
abbrev pub Serves : Option RemoteConnection → Host → Type 0
Serves o s = s.remote ≡ o

-- An action after which the desktop has the same remote as before.
abbrev pub Keeps : {A : Type 0} → Work A → Type 0
Keeps m = (o : Option RemoteConnection) → Triple (Serves o) m (λ a. Serves o) (Serves o)

Keeps-same : {A : Type 0} (m : Work A) → ((s : Host) → (m s).1.remote ≡ s.remote) → Keeps m
Keeps-same {A} m same o = record { after = λ s h. go (m s) (same s ∙ h) }
  where
    go : (x : Result A × Host) → x.1.remote ≡ o → After (λ a. Serves o) (Serves o) x
    go (ok a, t) h = h
    go (err e, t) h = h
    go (panic, t) h = h

pub drop-remote : (o : Option RemoteConnection) (s : Host) → (drop_remote o s).remote ≡ s.remote
drop-remote none s = refl
drop-remote (some r) s = drop_remote-remote r s

thread_ends-remote : (c : PeerConnection) (s : Host) → (thread_ends c s).remote ≡ s.remote
unfolding thread_ends
thread_ends-remote c s = end_server-remote c _ s

store_answer-remote :
    (c : PeerConnection) (text : Bytes) (o : Option PionServer) (s : Host)
    → (store_answer c text o s).remote ≡ s.remote
store_answer-remote c text (some v) s = refl
store_answer-remote c text none s = refl

module _ ⦃lib : Services⦄ where
  init_connection-same : (flag : ℕ) (s : Host) → (init_connection flag s).1.remote ≡ s.remote
  unfolding init_connection
  init_connection-same flag s = ground arith

  pub init_connection-Keeps : (flag : ℕ) → Keeps (init_connection flag)
  init_connection-Keeps flag = Keeps-same (init_connection flag) (init_connection-same flag)

  answer_offer-same :
      (c : PeerConnection) (offer : Bytes) (s : Host) → (answer_offer c offer s).1.remote ≡ s.remote
  unfolding answer_offer parse_offer signal
  answer_offer-same c offer s = ground (arith, store_answer-remote c)

  pub answer_offer-Keeps : (c : PeerConnection) (offer : Bytes) → Keeps (answer_offer c offer)
  answer_offer-Keeps c offer = Keeps-same (answer_offer c offer) (answer_offer-same c offer)

  start-same : (c : PeerConnection) (s : Host) → (start c s).1.remote ≡ s.remote
  unfolding start
  start-same c s = ground arith

  pub start-Keeps : (c : PeerConnection) → Keeps (start c)
  start-Keeps c = Keeps-same (start c) (start-same c)

  stream_video-same :
      (bounds : MonitorBounds) (port : ℕ) (s : Host)
      → (stream_video bounds port s).1.remote ≡ s.remote
  unfolding stream_video
  stream_video-same bounds port s = ground arith

  stream_video-Keeps : (bounds : MonitorBounds) (port : ℕ) → Keeps (stream_video bounds port)
  stream_video-Keeps bounds port =
      Keeps-same (stream_video bounds port) (stream_video-same bounds port)

  pub start_pion_server-Keeps :
      (offer : Bytes) (bounds : MonitorBounds) → Keeps (start_pion_server offer bounds)
  unfolding start_pion_server
  start_pion_server-Keeps offer bounds o =
      Triple-bind new_notifier _ (Keeps-same new_notifier (λ s. refl) o) λ flag.
        Triple-bind _ _ (init_connection-Keeps flag o) λ c.
          Triple-bind _ _
            (on_failure-Triple (thread_ends c) _ (λ s h. thread_ends-remote c s ∙ h)
              (answer_offer-Keeps c offer o))
            λ answer.
              Triple-bind _ _
                (on_failure-Triple (thread_ends c) _ (λ s h. thread_ends-remote c s ∙ h)
                  (start-Keeps c o))
                λ ports.
                  Triple-bind _ _ (stream_video-Keeps bounds ports.0 o)
                    λ child. Triple-pure _ (λ s h. h)
