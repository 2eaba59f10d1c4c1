-- ===== src/Tests/Rooster.antt =====
-- hammer/hammeregg_rooster/src/main.rs at work: a desktop "home", remotes, offers and answers.
use mathlib.Core.List.{Memᴰ}
use hammeregg.Prelude.{
  ◌≡◌, ◌↔◌, refl, List, [], ◌∷◌, arith, none, some, message, Error, ok, err, panic, string_keys,
  nat_keys,
}
use hammeregg.Prelude.HashMap
use hammeregg.Core.Packet.{home_init, remote_init, remote_offer, home_answer_success, validate_init}
use hammeregg.Core.Wire.{
  Message, binary, other, serialize_packet, deserialize_packet, deserialize_and_validate_packet,
}
use hammeregg.Rooster.Peers.{DesktopAndPeers, new, insert_peer, get_peer}
use hammeregg.Rooster.Peers.Laws.{
  IsFresh, new-IsFresh, Visit, join, leave, visits, ids, IsRising, ids-IsRising,
}
use hammeregg.Rooster.Task.{Shared, sent, receiver_dropped}
use hammeregg.Rooster.Home.{taken, home_packet, home_greet}
use hammeregg.Rooster.Home.Relay.{Delivers, home_packet_iff}
use hammeregg.Rooster.Remote.{remote_packet}
use hammeregg.Rooster.Remote.Forward.{Forwards, remote_packet_iff}
use hammeregg.Rooster.Rendezvous.{exchange, rendezvous}
use hammeregg.Rooster.Races.Failure.{failed_home_keeps_name}
use hammeregg.Rooster.Races.Duplicate.{twice, duplicate_home}
use hammeregg.Rooster.Races.Stale.{reconnect, stale_remote_evicts}
use hammeregg.Rooster.Server.{
  Connection, home_serving, remote_serving, ended, received, connection_step, System, start, run,
}
use hammeregg.Rooster.Server.Routing.{IsOrderly, run-start-IsOrderly}
use hammeregg.Tests.Encoding.{small_env, hello, packet_codec-IsCodec}

abbrev home_hello : Message
home_hello = binary (1 ∷ 1108003529997441637 ∷ 65536 ∷ 0 ∷ 0 ∷ [])

abbrev remote_hello : Message
remote_hello = binary (1 ∷ 1108003529997441637 ∷ 65536 ∷ 3 ∷ 0 ∷ [])

run-start-IsOrderly_example :
    IsOrderly ⦃env = small_env⦄ (run ⦃env = small_env⦄ start (reconnect home_hello remote_hello))
run-start-IsOrderly_example =
    run-start-IsOrderly ⦃env = small_env⦄ packet_codec-IsCodec (reconnect home_hello remote_hello)

-- A desktop with channel 0 and two peers, with channels 1 and 2.
abbrev busy : DesktopAndPeers
busy = record { desktop_tx = 0; id_counter = 2; peers = (1, 2) ∷ (0, 1) ∷ [] }

abbrev home_map : Shared
home_map = record { desktops = ("home", busy) ∷ []; next_channel = 3; log = [] }

abbrev empty_map : Shared
empty_map = record { desktops = []; next_channel = 0; log = [] }

-- The remote claims to be peer 9; the desktop answers peer 2.
abbrev offer : Message
offer = binary (6 ∷ 9 ∷ 2 ∷ 0 ∷ 3 ∷ 0 ∷ 4 ∷ 0 ∷ [])

abbrev filled : Message
filled = binary (6 ∷ 2 ∷ 2 ∷ 0 ∷ 3 ∷ 0 ∷ 4 ∷ 0 ∷ [])

abbrev answer : Message
answer = binary (7 ∷ 2 ∷ 5 ∷ 0 ∷ 6 ∷ 0 ∷ 7 ∷ 0 ∷ [])

abbrev answer_1 : Message
answer_1 = binary (7 ∷ 1 ∷ 5 ∷ 0 ∷ 6 ∷ 0 ∷ 7 ∷ 0 ∷ [])

rendezvous_example :
    (deserialize_packet ⦃c = small_env.packets⦄ filled
      ≡ ok (remote_offer (insert_peer busy 3).1 (1 ∷ []) (2 ∷ []) (3 ∷ [])))
    × (exchange ⦃env = small_env⦄ "home" offer answer home_map ≡ (
      ok tt,
      record {
        desktops = HashMap.insert "home" (insert_peer busy 3).0 home_map.desktops;
        next_channel = 4;
        log = sent 3 answer ∷ sent 0 filled ∷ [];
      },
    ))
rendezvous_example =
    rendezvous ⦃env = small_env⦄ "home" home_map busy offer filled answer 9 (1 ∷ []) (2 ∷ [])
      (3 ∷ []) (home_answer_success 2 (4 ∷ []) (5 ∷ []) (6 ∷ [])) packet_codec-IsCodec
      (unfold HashMap.get in refl) (unfold deserialize_packet in refl)
      (unfold serialize_packet insert_peer in refl) (unfold deserialize_packet in refl)
      (unfold insert_peer in refl) refl refl

abbrev after_answer : Shared
after_answer = record home_map { log = sent 2 answer_1 ∷ [] }

home_packet_iff_example :
    (home_packet ⦃env = small_env⦄ "home" (ok answer_1) home_map ≡ (ok tt, after_answer))
    ↔ Delivers ⦃env = small_env⦄ "home" (ok answer_1) home_map after_answer
home_packet_iff_example =
    home_packet_iff ⦃env = small_env⦄ "home" (ok answer_1) home_map after_answer

-- The example's condition holds.
answer_delivered :
    home_packet ⦃env = small_env⦄ "home" (ok answer_1) home_map ≡ (ok tt, after_answer)
unfolding home_packet deserialize_packet HashMap.get
answer_delivered = refl

abbrev after_offer : Shared
after_offer = record home_map { log = sent 0 filled ∷ [] }

remote_packet_iff_example :
    (remote_packet ⦃env = small_env⦄ "home" 2 (ok offer) home_map ≡ (ok tt, after_offer))
    ↔ Forwards ⦃env = small_env⦄ "home" 2 (ok offer) home_map after_offer
remote_packet_iff_example =
    remote_packet_iff ⦃env = small_env⦄ "home" 2 (ok offer) home_map after_offer

offer_forwarded :
    remote_packet ⦃env = small_env⦄ "home" 2 (ok offer) home_map ≡ (ok tt, after_offer)
unfolding remote_packet deserialize_packet serialize_packet HashMap.get
offer_forwarded = refl

abbrev ping : Message
ping = other "ping"

ping_fails :
    (home_packet ⦃env = small_env⦄ "home" (ok ping) home_map).0
    ≡ err (message "Packet must be a binary message")
unfolding home_packet deserialize_packet
ping_fails = refl

remote_ping_fails :
    (remote_packet ⦃env = small_env⦄ "home" 1 (ok ping) home_map).0
    ≡ err (message "Packet must be a binary message")
unfolding remote_packet deserialize_packet
remote_ping_fails = refl

abbrev bad_packet : Error
bad_packet = message "Packet must be a binary message"

abbrev refusal : Message
refusal = binary (2 ∷ 1 ∷ [])

abbrev after_ping : Connection × Shared
after_ping = connection_step ⦃env = small_env⦄ (home_serving "home" 0) (received (ok ping)) home_map

failed_home_keeps_name_example :
    (after_ping.0 ≡ ended (err bad_packet))
    × (HashMap.get "home" after_ping.1.desktops ≡ some busy)
    × Memᴰ (receiver_dropped 0) after_ping.1.log
    × (home_greet ⦃env = small_env⦄ "home" after_ping.1 ≡ (ok (taken refusal), after_ping.1))
failed_home_keeps_name_example =
    failed_home_keeps_name ⦃env = small_env⦄ "home" 0 (ok ping) home_map busy bad_packet refusal
      ping_fails (unfold HashMap.get in refl) (unfold serialize_packet in refl)

abbrev after_twice : System
after_twice =
    run ⦃env = small_env⦄ (record { shared = empty_map; connections = [] }) (twice home_hello)

duplicate_home_example :
    (after_twice.connections ≡ ended (ok tt) ∷ home_serving "home" 1 ∷ [])
    × (HashMap.get "home" after_twice.shared.desktops ≡ none)
    × ((connection_step ⦃env = small_env⦄
          (home_serving "home" 1)
          (received (ok answer))
          after_twice.shared).0
        ≡ ended panic)
duplicate_home_example =
    duplicate_home ⦃env = small_env⦄ "home" empty_map home_hello (binary (1 ∷ [])) answer
      (hello (home_init "home")) 2 (home_answer_success 2 (4 ∷ []) (5 ∷ []) (6 ∷ []))
      (unfold deserialize_and_validate_packet validate_init in refl) refl
      (unfold serialize_packet in refl) (unfold HashMap.get in refl)
      (unfold deserialize_packet in refl) refl

abbrev after_reconnect : System
after_reconnect =
    run ⦃env = small_env⦄ (record { shared = empty_map; connections = [] })
      (reconnect home_hello remote_hello)

stale_remote_evicts_example :
    (after_reconnect.connections
      ≡ ended (ok tt) ∷ ended (ok tt) ∷ home_serving "home" 2 ∷ remote_serving "home" 0 3 ∷ [])
    × ((d : DesktopAndPeers) × (HashMap.get "home" after_reconnect.shared.desktops ≡ some d)
        × (d.desktop_tx ≡ 2)
        × (get_peer d 0 ≡ none))
stale_remote_evicts_example =
    stale_remote_evicts ⦃env = small_env⦄ "home" empty_map home_hello remote_hello (binary (1 ∷ []))
      (binary (4 ∷ [])) (hello (home_init "home")) (hello (remote_init "home"))
      (unfold deserialize_and_validate_packet validate_init in refl) refl
      (unfold deserialize_and_validate_packet validate_init in refl) refl
      (unfold serialize_packet in refl) (unfold serialize_packet in refl)
      (unfold HashMap.get in refl)

abbrev a_day : List Visit
a_day = join 1 ∷ join 2 ∷ leave 0 ∷ join 3 ∷ []

ids-IsRising_example :
    IsRising (new 0).id_counter (ids (new 0) a_day) × IsFresh (visits (new 0) a_day)
ids-IsRising_example = ids-IsRising (new 0) a_day (new-IsFresh 0) (unfold new in omega arith)
