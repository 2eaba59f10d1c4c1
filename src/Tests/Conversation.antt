-- ===== src/Tests/Conversation.antt =====
-- An offer of a remote on its way through the server to the desktop, and the reply on its way back.
use hammeregg.Prelude.{◌≡◌, refl, ◌∷◌, [], ok, string_keys, nat_keys}
use hammeregg.Prelude.HashMap
use hammeregg.Core.Wire.{Message, binary, serialize_packet, deserialize_packet}
use hammeregg.Rooster.Peers.{DesktopAndPeers, insert_peer}
use hammeregg.Rooster.Task.{sent}
use hammeregg.Rooster.Rendezvous.{exchange}
use hammeregg.Backend.Host.{Host}
use hammeregg.Backend.Offer.{answer_item, idle}
use hammeregg.Backend.Conversation.{IsReply, offer_comes_back}
use hammeregg.Tests.Encoding.{small_env, packet_codec-IsCodec, put₃}
use hammeregg.Tests.Services.{services-ReportsErrors}
use hammeregg.Tests.Backend.{monitor, sealed_key, nonce, sealed_offer, working}
use hammeregg.Tests.Server.{two_peers}

-- The remote claims to be peer 9, and is the next peer of a desktop that has had two.
abbrev offer : Message
offer = binary (6 ∷ 9 ∷ put₃ sealed_key nonce sealed_offer)

abbrev filled : Message
filled = binary (6 ∷ 2 ∷ put₃ sealed_key nonce sealed_offer)

abbrev two : DesktopAndPeers
two = record { desktop_tx = 0; id_counter = 2; peers = (1, 2) ∷ (0, 1) ∷ [] }

offer_comes_back_example :
    (m : Message) × (t : Host) × (answer_item ⦃lib = working⦄ monitor (ok filled) idle ≡ (ok m, t))
    × IsReply ⦃lib = working⦄ (insert_peer two 3).1 m idle t
    × (exchange ⦃env = small_env⦄ "home" offer m two_peers ≡ (
      ok tt,
      record two_peers {
        desktops = HashMap.insert "home" (insert_peer two 3).0 two_peers.desktops;
        next_channel = 4;
        log = sent 3 m ∷ sent 0 filled ∷ [];
      },
    ))
unfolding HashMap.get serialize_packet deserialize_packet insert_peer
offer_comes_back_example =
    offer_comes_back ⦃env = small_env⦄ ⦃lib = working⦄ refl packet_codec-IsCodec
      (services-ReportsErrors (ok 3) tt) "home" two_peers two offer filled 9 sealed_key nonce
      sealed_offer monitor idle (binary (8 ∷ 2 ∷ 3 ∷ [])) refl refl refl refl refl refl
