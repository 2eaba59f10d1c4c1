-- ===== src/Rooster/Races/Duplicate.antt =====
-- hammer/hammeregg_rooster/src/main.rs: two desktops of one name.
use hammeregg.Prelude.{
  ℕ, suc, String, List, [], ◌∷◌, ◌≡◌, refl, arith, ok, panic, none, string_keys, nat_keys,
}
use hammeregg.Prelude.HashMap
use hammeregg.Prelude.HashMap.{get-insert, get-remove}
use hammeregg.Core.Packet.{
  HandshakePacket, HandshakeInitPacket, home_init, home_init_response, accepted, init_validate,
}
use hammeregg.Core.Wire.{
  Message, serialize_packet, deserialize_packet, deserialize_and_validate_packet,
}
use hammeregg.Rooster.Peers.{Sender}
use hammeregg.Rooster.Task.{Env, Shared}
use hammeregg.Rooster.Home.{free, home_packet, home_register}
use hammeregg.Rooster.Home.Relay.{IsAnswerFor}
use hammeregg.Rooster.Server.{
  handshaking, home_greeting, home_serving, ended, received, delivered, finished, Action,
  connection_step, accept, wake, run, system_step, wake_at,
}
use hammeregg.Rooster.Steps.{home_arrives, home_registered, home_finished, gone}

module _ ⦃env : Env⦄ where
  -- An answer of a desktop whose name is not in the map makes its task panic.
  unregistered_panics :
      (name : String) (tx : Sender) (answer : Message) (id : ℕ) (reply : HandshakePacket)
      (s : Shared)
      → HashMap.get name s.desktops ≡ none
      → deserialize_packet ⦃c = env.packets⦄ answer ≡ ok reply
      → IsAnswerFor id reply
      → (connection_step (home_serving name tx) (received (ok answer)) s).0 ≡ ended panic
  unfolding connection_step home_packet
  unregistered_panics name tx answer id reply s unknown decoded addressed = ground arith

-- Two clients say hello under one name before either is registered, and the first one leaves.
abbrev pub twice : Message → List Action
twice m =
    accept
    ∷ accept
    ∷ wake 0 (received (ok m))
    ∷ wake 1 (received (ok m))
    ∷ wake 0 (delivered (ok tt))
    ∷ wake 1 (delivered (ok tt))
    ∷ wake 0 finished
    ∷ []

module _ ⦃env : Env⦄ (name : String) (s : Shared) (m w answer : Message) (p : HandshakeInitPacket)
    (id : ℕ) (reply : HandshakePacket)
    (read : deserialize_and_validate_packet ⦃c = env.init_packets⦄ m ≡ ok p)
    (home : p.packet ≡ home_init name)
    (written : serialize_packet ⦃c = env.packets⦄ (home_init_response accepted) ≡ ok w)
    (unknown : HashMap.get name s.desktops ≡ none)
    (decoded : deserialize_packet ⦃c = env.packets⦄ answer ≡ ok reply)
    (addressed : IsAnswerFor id reply) where
  -- When two clients greet under one free name before the first is registered, both are accepted;
  -- when the first one leaves, the name is out of the map although the second is still connected,
  -- and the task of the second panics at its next answer.
  pub duplicate_home :
      let y = run (record { shared = s; connections = [] }) (twice m) in
      (y.connections ≡ ended (ok tt) ∷ home_serving name (suc s.next_channel) ∷ [])
      × (HashMap.get name y.shared.desktops ≡ none)
      × ((connection_step
            (home_serving name (suc s.next_channel))
            (received (ok answer))
            y.shared).0
          ≡ ended panic)
  unfolding run system_step wake_at home_register
  duplicate_home =
      simp (arrives, home_registered, home_finished)
        (
          refl,
          gone name _,
          unregistered_panics name _ answer id reply _ (gone name _) decoded addressed,
        )
    where
      arrives : connection_step handshaking (received (ok m)) s ≡ (home_greeting name (free w), s)
      arrives = home_arrives name s m w p read home written unknown
