-- ===== src/Rooster/Home/Greet.antt =====
-- hammer/hammeregg_rooster/src/main.rs: the response to a desktop's first packet.
use hammeregg.Prelude.{String, ◌≡◌, arith, ok, none, some, string_keys}
use hammeregg.Prelude.HashMap
use hammeregg.Core.Packet.{HandshakePacket, home_init_response, accepted, refused}
use hammeregg.Core.Wire.{Message, serialize_packet}
use hammeregg.Rooster.Peers.{DesktopAndPeers}
use hammeregg.Rooster.Task.{Env, Shared}
use hammeregg.Rooster.Home.{taken, free, home_greet}

abbrev pub name_taken : HandshakePacket
name_taken =
    home_init_response (refused (record { text = "Requested desktop name was already taken" }))

module _ ⦃env : Env⦄ (name : String) (s : Shared) (w : Message) where
  pub home_greet-free :
      HashMap.get name s.desktops ≡ none
      → serialize_packet ⦃c = env.packets⦄ (home_init_response accepted) ≡ ok w
      → home_greet name s ≡ (ok (free w), s)
  unfolding home_greet
  home_greet-free unknown written = ground arith

  pub home_greet-taken :
      (d : DesktopAndPeers)
      → HashMap.get name s.desktops ≡ some d
      → serialize_packet ⦃c = env.packets⦄ name_taken ≡ ok w
      → home_greet name s ≡ (ok (taken w), s)
  unfolding home_greet
  home_greet-taken d known written = ground arith
