-- ===== src/Backend/Offer/Replies/Always.antt =====
-- hammer/hammeregg_backend/src/net.rs: whether an offer gets a reply.
use hammeregg.Prelude.{ℕ, List, ◌≡◌, refl, arith, Result, ok, err, panic, with_context}
use hammeregg.Prelude.Stateful.{continue, ◌>>=◌, lift}
use hammeregg.Core.Packet.{Bytes, HandshakePacket, home_answer_failure}
use hammeregg.Core.Wire.{Message, serialize_packet}
use hammeregg.Backend.Stream.{MonitorBounds, ffmpeg_args}
use hammeregg.Backend.Host.{
  PeerConnection, Host, Services, Work, Call, ask, thread_ends, drop_remote_connection,
}
use hammeregg.Backend.Pion.{
  on_failure, clean_up, new_notifier, init_connection, parse_offer, signal, answer_offer, start,
  stream_video, start_pion_server, c_string,
}
use hammeregg.Backend.Offer.{
  new_rng, write_answer, accept_offer, handle_remote_offer, replace_error,
}
use hammeregg.Backend.Offer.Replies.{
  IsCalm, IsCalm-bind, ReportsErrors, IsCalm-with_context, IsCalm-or_message, open_offer-IsCalm,
  seal_answer-IsCalm,
}

-- The action never panics.
record IsCalmWork {A : Type 0} (m : Work A) : Type 0 where
  at : (s : Host) → IsCalm (m s).0

bind-IsCalmWork :
    {A B : Type 0} (m : Work A) (f : A → Work B)
    → IsCalmWork m
    → ((a : A) → IsCalmWork (f a))
    → IsCalmWork (m >>= f)
bind-IsCalmWork {A} m f first rest = record { at = λ s. go (m s) (first.at s) }
  where
    go : (x : Result A × Host) → IsCalm x.0 → IsCalm (continue x.0 f x.1).0
    go (ok a, t) calm = (rest a).at t
    go (err e, t) calm = tt
    go (panic, t) calm = calm

on_failure-IsCalmWork :
    {A : Type 0} (clean : Host → Host) (m : Work A) → IsCalmWork m → IsCalmWork (on_failure clean m)
on_failure-IsCalmWork {A} clean m calm = record { at = λ s. go (m s) (calm.at s) }
  where
    go : (x : Result A × Host) → IsCalm x.0 → IsCalm (clean_up clean x).0
    go (ok a, t) h = tt
    go (err e, t) h = tt
    go (panic, t) h = h

lift-IsCalmWork : {A : Type 0} (r : Result A) → IsCalm r → IsCalmWork (lift r)
lift-IsCalmWork r calm = record { at = λ s. calm }

c_string-IsCalm : (b : Bytes) → IsCalm (c_string b)
c_string-IsCalm b = ground arith

module _ ⦃lib : Services⦄ (calm : ReportsErrors lib) where
  ask-IsCalmWork : {A : Type 0} (answer : List Call → A) (k : A → Call) → IsCalmWork (ask answer k)
  ask-IsCalmWork answer k = record { at = λ s. tt }

  init_connection-IsCalmWork : (flag : ℕ) → IsCalmWork (init_connection flag)
  unfolding init_connection
  init_connection-IsCalmWork flag = record { at = λ s. ground arith }

  answer_offer-IsCalmWork : (c : PeerConnection) (offer : Bytes) → IsCalmWork (answer_offer c offer)
  unfolding answer_offer parse_offer signal
  answer_offer-IsCalmWork c offer = record { at = λ s. ground arith }

  start-IsCalmWork : (c : PeerConnection) → IsCalmWork (start c)
  unfolding start
  start-IsCalmWork c = record { at = λ s. IsCalm-or_message (lib.ports s.calls c) _ }

  stream_video-IsCalmWork :
      (bounds : MonitorBounds) (port : ℕ) → IsCalmWork (stream_video bounds port)
  unfolding stream_video
  stream_video-IsCalmWork bounds port = record {
    at = λ s. IsCalm-with_context _ _ (calm.spawn_child s.calls (ffmpeg_args bounds port));
  }

  start_pion_server-IsCalmWork :
      (offer : Bytes) (bounds : MonitorBounds) → IsCalmWork (start_pion_server offer bounds)
  unfolding start_pion_server
  start_pion_server-IsCalmWork offer bounds =
      bind-IsCalmWork new_notifier _ (record { at = λ s. tt })
        λ flag. bind-IsCalmWork _ _ (init_connection-IsCalmWork flag) λ c.
          bind-IsCalmWork _ _
            (on_failure-IsCalmWork (thread_ends c) _ (answer_offer-IsCalmWork c offer))
            λ answer.
              bind-IsCalmWork _ _ (on_failure-IsCalmWork (thread_ends c) _ (start-IsCalmWork c))
                λ ports.
                  bind-IsCalmWork _ _ (stream_video-IsCalmWork bounds ports.0)
                    λ child. record { at = λ s. tt }

  serialize_packet-IsCalm : (p : HandshakePacket) → IsCalm (serialize_packet ⦃c = lib.packets⦄ p)
  unfolding serialize_packet
  serialize_packet-IsCalm p =
      IsCalm-bind (with_context (lib.packets.to_vec p) _) _
        (IsCalm-with_context _ _ (calm.to_vec p)) λ b written. tt

  write_answer-IsCalmWork : (peer : ℕ) (answer : Bytes) → IsCalmWork (write_answer peer answer)
  unfolding write_answer
  write_answer-IsCalmWork peer answer =
      bind-IsCalmWork new_rng _ (record { at = λ s. calm.from_entropy s.calls })
        λ rng.
          bind-IsCalmWork _ _ (lift-IsCalmWork _ (seal_answer-IsCalm calm peer answer rng))
            λ packet. lift-IsCalmWork _ (serialize_packet-IsCalm packet)

  accept_offer-IsCalmWork :
      (peer : ℕ) (key iv payload : Bytes) (bounds : MonitorBounds)
      → IsCalmWork (accept_offer peer key iv payload bounds)
  unfolding accept_offer
  accept_offer-IsCalmWork peer key iv payload bounds =
      bind-IsCalmWork _ _ (lift-IsCalmWork _ (open_offer-IsCalm calm key iv payload)) λ offer.
        bind-IsCalmWork _ _ (start_pion_server-IsCalmWork offer bounds) λ started.
          bind-IsCalmWork _ _
            (on_failure-IsCalmWork (drop_remote_connection started.0) _
              (write_answer-IsCalmWork peer started.1))
            λ m. record { at = λ s. tt }

  -- Every offer gets a reply, whatever it holds and in whatever state the desktop is, if the
  -- packet for a failure can be written, the services report their errors, AES-GCM at least for
  -- keys of 32 and nonces of 12 bytes, there is entropy for the random generator, and it fills
  -- what it is given: no offer makes the desktop panic.
  pub handle_remote_offer_replies :
      (peer : ℕ) (key iv payload : Bytes) (bounds : MonitorBounds) (s : Host) (w : Message)
      → serialize_packet ⦃c = lib.packets⦄ (home_answer_failure peer "Signalling failed") ≡ ok w
      → (m : Message) × (t : Host) × (handle_remote_offer peer key iv payload bounds s ≡ (ok m, t))
  unfolding handle_remote_offer
  handle_remote_offer_replies peer key iv payload bounds s w written =
      go (accept_offer peer key iv payload bounds s)
        ((accept_offer-IsCalmWork peer key iv payload bounds).at s)
    where
      go :
          (x : Result Message × Host)
          → IsCalm x.0
          → (m : Message) × (t : Host) × (replace_error
                (serialize_packet ⦃c = lib.packets⦄ (home_answer_failure peer "Signalling failed"))
                x
              ≡ (ok m, t))
      go (ok m, t) calm' = (m, t, refl)
      go (err e, t) calm' = (w, t, rw written)
      go (panic, t) calm' = absurd calm'
