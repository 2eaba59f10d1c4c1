-- ===== src/Rooster/Rendezvous.antt =====
-- hammer/hammeregg_rooster/src/main.rs: an offer and its answer pass through the server.
use hammeregg.Prelude.{
  ℕ, suc, String, ◌∷◌, ◌≡◌, refl, arith, ok, some, eq_iff, string_keys, nat_keys,
}
use hammeregg.Prelude.HashMap
use hammeregg.Prelude.HashMap.{get-insert}
use hammeregg.Core.Packet.{HandshakePacket, Bytes, remote_offer}
use hammeregg.Core.Wire.{Message, IsCodec, serialize_packet, deserialize_packet}
use hammeregg.Core.RoundTrip.{deserialize_packet-serialize_packet}
use hammeregg.Rooster.Peers.{DesktopAndPeers, insert_peer, get_peer}
use hammeregg.Rooster.Task.{Env, Shared, Task, sent, ◌>>=◌, ◌>>◌}
use hammeregg.Rooster.Home.{home_packet}
use hammeregg.Rooster.Home.Relay.{IsAnswerFor, home_packet_iff}
use hammeregg.Rooster.Remote.{remote_register, remote_packet}
use hammeregg.Rooster.Remote.Forward.{remote_packet_iff}
use hammeregg.Rooster.Remote.Register.{remote_register_lem}

module _ ⦃env : Env⦄ where
  -- The server's part of one connection: a remote joins, sends an offer, and the desktop answers.
  abbrev pub exchange : String → Message → Message → Task (Unit {0})
  exchange name offer answer = do
    joined ← remote_register name
    remote_packet name joined.0 (ok offer)
    home_packet name (ok answer)

module _ ⦃env : Env⦄ (name : String) (s : Shared) (d : DesktopAndPeers)
    (offer filled answer : Message) (peer : ℕ) (key iv payload : Bytes) (reply : HandshakePacket)
    (law : IsCodec env.packets) (registered : HashMap.get name s.desktops ≡ some d)
    (offered : deserialize_packet ⦃c = env.packets⦄ offer ≡ ok (remote_offer peer key iv payload))
    (encoded : serialize_packet ⦃c = env.packets⦄
        (remote_offer (insert_peer d s.next_channel).1 key iv payload)
      ≡ ok filled)
    (replied : deserialize_packet ⦃c = env.packets⦄ answer ≡ ok reply)
    (addressed : IsAnswerFor (insert_peer d s.next_channel).1 reply)
    (open_desktop : env.try_send s.log d.desktop_tx ≡ ok tt)
    (open_remote : env.try_send (sent d.desktop_tx filled ∷ s.log) s.next_channel ≡ ok tt) where
  joined : Shared
  joined = record s {
    desktops = HashMap.insert name (insert_peer d s.next_channel).0 s.desktops;
    next_channel = suc s.next_channel;
  }

  asked : Shared
  unfolding joined
  asked = record joined { log = sent d.desktop_tx filled ∷ s.log }

  now_registered : HashMap.get name joined.desktops ≡ some (insert_peer d s.next_channel).0
  unfolding joined
  now_registered =
      ground
        (arith, get-insert name name (insert_peer d s.next_channel).0 s.desktops, eq_iff name name)

  offer_forwarded :
      remote_packet name (insert_peer d s.next_channel).1 (ok offer) joined ≡ (ok tt, asked)
  unfolding asked insert_peer
  offer_forwarded =
      (remote_packet_iff name (insert_peer d s.next_channel).1 (ok offer) joined asked).1 (record {
        m = offer;
        peer = peer;
        key = key;
        iv = iv;
        payload = payload;
        desktop = (insert_peer d s.next_channel).0;
        filled = filled;
        was_read = refl;
        decoded = offered;
        registered = now_registered;
        encoded = encoded;
        taken = open_desktop;
        after = refl;
      })

  found_peer :
      get_peer (insert_peer d s.next_channel).0 (insert_peer d s.next_channel).1
      ≡ some s.next_channel
  unfolding get_peer insert_peer
  found_peer = ground (arith, get-insert d.id_counter d.id_counter s.next_channel d.peers)

  answered : Shared
  unfolding asked
  answered = record asked { log = sent s.next_channel answer ∷ asked.log }

  answer_relayed : home_packet name (ok answer) asked ≡ (ok tt, answered)
  unfolding answered
  answer_relayed = (home_packet_iff name (ok answer) asked answered).1 (record {
    m = answer;
    packet = reply;
    peer = (insert_peer d s.next_channel).1;
    desktop = (insert_peer d s.next_channel).0;
    tx = s.next_channel;
    was_read = refl;
    decoded = replied;
    addressed = addressed;
    registered = now_registered;
    joined = found_peer;
    taken = open_remote;
    after = refl;
  })

  -- When a remote joins a desktop that is in the map, sends an offer and is answered under the id
  -- that it was given, and both channels are open, the offer in the desktop's channel decodes to
  -- the remote's offer with that id filled in, the answer goes unchanged to the remote's channel,
  -- and nothing else is sent.
  pub rendezvous :
      (deserialize_packet ⦃c = env.packets⦄ filled
        ≡ ok (remote_offer (insert_peer d s.next_channel).1 key iv payload))
      × (exchange name offer answer s ≡ (
        ok tt,
        record s {
          desktops = HashMap.insert name (insert_peer d s.next_channel).0 s.desktops;
          next_channel = suc s.next_channel;
          log = sent s.next_channel answer ∷ sent d.desktop_tx filled ∷ s.log;
        },
      ))
  unfolding answered
  rendezvous = (
    deserialize_packet-serialize_packet ⦃c = env.packets⦄ _ filled law encoded,
    rw (remote_register_lem name s d registered, offer_forwarded, answer_relayed),
  )
