-- ===== src/Backend/Handles/Starting.antt =====
-- hammer/hammeregg_backend/src/net.rs: `start_pion_server` as a whole, and the connections in use.
use hammeregg.Prelude.{refl, nat_keys}
use hammeregg.Prelude.Stateful.Triples.{Triple, Triple-bind, Triple-pure}
use hammeregg.Core.Packet.{Bytes}
use hammeregg.Backend.Stream.{MonitorBounds}
use hammeregg.Backend.Host.{Services, thread_ends}
use hammeregg.Backend.Pion.{start_pion_server, new_notifier}
use hammeregg.Prelude.HashMap
use hammeregg.Backend.Offer.{idle}
use hammeregg.Backend.Handles.{IsFresh, IsSound}
use hammeregg.Backend.Handles.Servers.{IsHeld-mono, thread_ends-IsSound}
use hammeregg.Backend.Handles.Initial.{IsOwned, on_failure-Triple, init_connection-Triple}
use hammeregg.Backend.Handles.Answering.{answer_offer-Triple, start-Triple, stream_video-Triple}

pub idle-IsSound : IsSound idle
unfolding HashMap.get
idle-IsSound = record { safe = refl; live = λ c v h. cc; held = tt }

pub new_notifier-Triple : Triple IsSound new_notifier (λ flag. IsSound) IsSound
new_notifier-Triple = record {
  after = λ s sound. record {
    safe = sound.safe;
    live = sound.live;
    held = IsHeld-mono s.remote s (new_notifier s).1 (λ n h. h) refl sound.held;
  };
}

module _ ⦃lib : Services⦄ (fresh : IsFresh lib) where
  pub start_pion_server-Triple :
      (offer : Bytes) (bounds : MonitorBounds)
      → Triple IsSound
          (start_pion_server offer bounds)
          (λ started. IsOwned started.0.connection started.0.stop_notifier)
          IsSound
  unfolding start_pion_server
  start_pion_server-Triple offer bounds = Triple-bind new_notifier _ new_notifier-Triple λ flag.
      Triple-bind _ _ (init_connection-Triple fresh flag) λ c.
        Triple-bind _ _
          (on_failure-Triple (thread_ends c) _ (λ s h. thread_ends-IsSound c s h.0)
            (answer_offer-Triple c flag offer))
          λ answer.
            Triple-bind _ _
              (on_failure-Triple (thread_ends c) _ (λ s h. thread_ends-IsSound c s h.0)
                (start-Triple c flag))
              λ ports.
                Triple-bind _ _ (stream_video-Triple c flag bounds ports.0)
                  λ child. Triple-pure _ (λ s h. h)
