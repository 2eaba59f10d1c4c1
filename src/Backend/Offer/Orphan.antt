-- ===== src/Backend/Offer/Orphan.antt =====
-- hammer/hammeregg_backend/src/net.rs: an offer for which ffmpeg cannot be started.
use hammeregg.Prelude.{ℕ, ◌≡◌, refl, subst, context, Error, ok, err, true}
use hammeregg.Prelude.Stateful.Triples.{After, Triple}
use hammeregg.Core.Packet.{Bytes, home_answer_failure}
use hammeregg.Core.Wire.{Message, serialize_packet}
use hammeregg.Backend.Stream.{MonitorBounds, ffmpeg_args}
use hammeregg.Backend.Host.{PeerConnection, Host, Services, Work, call, spawn}
use hammeregg.Backend.Pion.{
  init_connection, answer_offer, start, stream_video, start_pion_server, new_notifier,
}
use hammeregg.Backend.Seal.{open_offer}
use hammeregg.Backend.Offer.Kept.{init_connection-Keeps, answer_offer-Keeps, start-Keeps}
use hammeregg.Backend.Offer.{accept_offer, handle_remote_offer}
use hammeregg.Backend.Handles.{IsFresh, IsSound, Owns, is_live}
use hammeregg.Backend.Handles.Initial.{IsOwned, init_connection-Triple}
use hammeregg.Backend.Handles.Answering.{answer_offer-Triple, start-Triple, owned-live}
use hammeregg.Backend.Handles.Starting.{new_notifier-Triple}

-- What a triple says of an action that is known to return.
triple-ok :
    {A : Type 0} {p e : Host → Type 0} {q : A → Host → Type 0} {m : Work A} {a : A} {s t : Host}
    → Triple p m q e
    → p s
    → m s ≡ (ok a, t)
    → q a t
triple-ok {e} {q} {s} triple h eq = subst (After q e) eq (triple.after s h)

module _ ⦃lib : Services⦄ (bounds : MonitorBounds) (peer : ℕ) (key iv payload offer : Bytes)
    (s s₁ s₂ s₃ : Host) (c : PeerConnection) (answer : Bytes) (ports : ℕ × ℕ) (e : Error)
    (w : Message) (opened : open_offer key iv payload ≡ ok offer)
    (created : init_connection s.next_notifier (new_notifier s).1 ≡ (ok c, s₁))
    (answered : answer_offer c offer s₁ ≡ (ok answer, s₂)) (started : start c s₂ ≡ (ok ports, s₃))
    (failed : lib.spawn_child s₃.calls (ffmpeg_args bounds ports.0) ≡ err e)
    (written : serialize_packet ⦃c = lib.packets⦄ (home_answer_failure peer "Signalling failed")
      ≡ ok w) where
  abbrev pub after_failure : Host
  after_failure = call (spawn (ffmpeg_args bounds ports.0)) s₃

  start_fails :
      start_pion_server offer bounds s ≡ (err (context "Couldn't start ffmpeg!" e), after_failure)
  unfolding start_pion_server stream_video
  start_fails = rw (created, answered, started, failed)

  reply_fails : handle_remote_offer peer key iv payload bounds s ≡ (ok w, after_failure)
  unfolding handle_remote_offer accept_offer
  reply_fails = rw (opened, start_fails, written)

  owned : IsFresh lib → IsSound s → IsOwned c s.next_notifier s₃
  owned fresh sound =
      triple-ok (start-Triple c s.next_notifier)
        (triple-ok (answer_offer-Triple c s.next_notifier offer)
          (triple-ok (init_connection-Triple fresh s.next_notifier)
            (new_notifier-Triple.after s sound) created)
          answered)
        started

  -- When an offer was opened, the connection created, the offer answered and the ports bound, but
  -- ffmpeg cannot be started, the peer is told that signalling failed and the desktop keeps the
  -- remote that it had, while the server started for the peer goes on, its connection not freed;
  -- this holds in every state whose connections were used soundly, if the library never hands out
  -- a connection that is in use.
  pub failed_ffmpeg_leaves_server :
      IsFresh lib
      → IsSound s
      → (handle_remote_offer peer key iv payload bounds s ≡ (ok w, after_failure))
        × Owns c s.next_notifier after_failure
        × (is_live c after_failure.calls ≡ true)
        × (after_failure.remote ≡ s.remote)
  failed_ffmpeg_leaves_server fresh sound = (
    reply_fails,
    (owned fresh sound).1,
    owned-live c s.next_notifier s₃ (owned fresh sound),
    triple-ok (start-Keeps c s.remote)
        (triple-ok (answer_offer-Keeps c offer s.remote)
          (triple-ok (init_connection-Keeps s.next_notifier s.remote) refl created) answered)
        started,
  )
