-- ===== src/Backend/Conversation.antt =====
-- hammer/hammeregg_rooster/src/main.rs and hammer/hammeregg_backend/src/net.rs: an offer on its way
-- from a remote through the server to the desktop, and the reply on its way back.
use hammeregg.Prelude.{
  ℕ, suc, String, ◌∷◌, ◌≡◌, refl, sym, subst, ok, some, ◌⊎◌, inl, inr, string_keys,
}
use hammeregg.Prelude.HashMap
use hammeregg.Core.Packet.{
  Bytes, HandshakePacket, remote_offer, home_answer_success, home_answer_failure,
}
use hammeregg.Core.Wire.{Codec, Message, IsCodec, serialize_packet, deserialize_packet}
use hammeregg.Core.RoundTrip.{deserialize_packet-serialize_packet}
use hammeregg.Rooster.Peers.{DesktopAndPeers, insert_peer}
use hammeregg.Rooster.Task.{Env, Shared, sent}
use hammeregg.Rooster.Home.Relay.{IsAnswerFor}
use hammeregg.Rooster.Rendezvous.{exchange, rendezvous}
use hammeregg.Backend.Stream.{MonitorBounds}
use hammeregg.Backend.Host.{RemoteConnection, Host, Services}
use hammeregg.Backend.Offer.{answer_item, handle_packet, handle_remote_offer}
use hammeregg.Backend.Offer.Outcome.{IsAnswer, handle_remote_offer_outcome}
use hammeregg.Backend.Offer.Replies.{ReportsErrors}
use hammeregg.Backend.Offer.Replies.Always.{handle_remote_offer_replies}

-- The reply accepts the offer of a peer, and the desktop serves a remote; or it says that signalling
-- failed, and the desktop serves whom it served before.
abbrev pub IsReply : ⦃lib : Services⦄ → ℕ → Message → Host → Host → Type 0
IsReply ⦃lib⦄ peer m before after =
    (IsAnswer peer m × ((r : RemoteConnection) × (after.remote ≡ some r)))
    ⊎ ((deserialize_packet ⦃c = lib.packets⦄ m ≡ ok (home_answer_failure peer "Signalling failed"))
        × (after.remote ≡ before.remote))

module _ ⦃lib : Services⦄ where
  answer_item-offer :
      (bounds : MonitorBounds) (m : Message) (peer : ℕ) (key iv payload : Bytes) (h : Host)
      → deserialize_packet ⦃c = lib.packets⦄ m ≡ ok (remote_offer peer key iv payload)
      → answer_item bounds (ok m) h ≡ handle_remote_offer peer key iv payload bounds h
  unfolding answer_item handle_packet
  answer_item-offer bounds m peer key iv payload h e = rw (answer_item, e) refl

  IsReply-IsAnswerFor :
      (peer : ℕ) (m : Message) (h t : Host)
      → IsReply peer m h t
      → (p : HandshakePacket) × (deserialize_packet ⦃c = lib.packets⦄ m ≡ ok p) × IsAnswerFor peer p
  IsReply-IsAnswerFor peer m h t (inl ((key, iv, payload, e), served)) =
      (home_answer_success peer key iv payload, e, refl)
  IsReply-IsAnswerFor peer m h t (inr (e, kept)) =
      (home_answer_failure peer "Signalling failed", e, refl)

module _ ⦃env : Env⦄ ⦃lib : Services⦄ (same : lib.packets ≡ env.packets) (law : IsCodec lib.packets)
    (calm : ReportsErrors lib) (name : String) (s : Shared) (d : DesktopAndPeers)
    (offer filled : Message) (peer : ℕ) (key iv payload : Bytes) (bounds : MonitorBounds) (h : Host)
    (w : Message) (registered : HashMap.get name s.desktops ≡ some d)
    (offered : deserialize_packet ⦃c = env.packets⦄ offer ≡ ok (remote_offer peer key iv payload))
    (encoded : serialize_packet ⦃c = env.packets⦄
        (remote_offer (insert_peer d s.next_channel).1 key iv payload)
      ≡ ok filled)
    (written : serialize_packet ⦃c = lib.packets⦄
        (home_answer_failure (insert_peer d s.next_channel).1 "Signalling failed")
      ≡ ok w)
    (open_desktop : env.try_send s.log d.desktop_tx ≡ ok tt)
    (open_remote : env.try_send (sent d.desktop_tx filled ∷ s.log) s.next_channel ≡ ok tt) where
  law_of_server : IsCodec env.packets
  law_of_server = subst IsCodec same law

  filled_decodes :
      deserialize_packet ⦃c = lib.packets⦄ filled
      ≡ ok (remote_offer (insert_peer d s.next_channel).1 key iv payload)
  filled_decodes =
      subst
        (λ (c : Codec HandshakePacket).
          deserialize_packet ⦃c = c⦄ filled
          ≡ ok (remote_offer (insert_peer d s.next_channel).1 key iv payload))
        (sym same)
        (deserialize_packet-serialize_packet ⦃c = env.packets⦄ _ filled law_of_server encoded)

  -- When a remote joins a desktop that is in the map and sends an offer, the desktop replies to
  -- what the server passes on, whatever the offer holds and in whatever state the desktop is,
  -- and the server passes the reply on to that remote and sends nothing else; the reply accepts
  -- the offer under the id of that remote, and the desktop then serves a remote, or it says
  -- that signalling failed, and the desktop serves whom it served before; if the offer with its
  -- id can be written, both channels are open, both programs have one encoding, which reads
  -- back what it wrote, the packet for a failure can be written, and the services of the
  -- desktop report their errors, AES-GCM at least for keys of 32 and nonces of 12 bytes, there
  -- is entropy for its random generator, and it fills what it is given.
  pub offer_comes_back :
      (m : Message) × (t : Host) × (answer_item bounds (ok filled) h ≡ (ok m, t))
      × IsReply (insert_peer d s.next_channel).1 m h t
      × (exchange name offer m s ≡ (
        ok tt,
        record s {
          desktops = HashMap.insert name (insert_peer d s.next_channel).0 s.desktops;
          next_channel = suc s.next_channel;
          log = sent s.next_channel m ∷ sent d.desktop_tx filled ∷ s.log;
        },
      ))
  offer_comes_back =
      let id = (insert_peer d s.next_channel).1 in
      let (m, t, e) = handle_remote_offer_replies calm id key iv payload bounds h w written in
      let reply = handle_remote_offer_outcome law bounds id key iv payload h t m e in
      let (p, decoded, addressed) = IsReply-IsAnswerFor id m h t reply in
      (
        m,
        t,
        rw (answer_item-offer bounds filled id key iv payload h filled_decodes) e,
        reply,
        (rendezvous name s d offer filled m peer key iv payload p law_of_server registered offered
            encoded
            (subst (λ (c : Codec HandshakePacket). deserialize_packet ⦃c = c⦄ m ≡ ok p) same
              decoded)
            addressed open_desktop open_remote).1,
      )
