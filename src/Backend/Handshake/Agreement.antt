-- ===== src/Backend/Handshake/Agreement.antt =====
-- hammer/hammeregg_backend/src/net.rs and hammer/hammeregg_rooster/src/main.rs: the two sides of the
-- handshake of a desktop.
use hammeregg.Prelude.{String, ◌≡◌, refl, message, ok, err, none, some, string_keys, >>=-eq-ok, ◌∙◌}
use hammeregg.Prelude.HashMap
use hammeregg.Core.Packet.{
  HandshakeInitPacket, accepted, home_init, home_init_response, version_1_0, new, magic_number,
  init_validate,
}
use hammeregg.Core.Wire.{Message, IsCodec, serialize_packet, deserialize_and_validate_packet}
use hammeregg.Core.Validation.{new_iff}
use hammeregg.Core.RoundTrip.{
  deserialize_packet-serialize_packet, deserialize_and_validate_packet-new,
}
use hammeregg.Rooster.Peers.{DesktopAndPeers}
use hammeregg.Rooster.Task.{Env, Shared}
use hammeregg.Rooster.Home.{taken, free}
use hammeregg.Rooster.Home.Greet.{name_taken, home_greet-taken}
use hammeregg.Rooster.Steps.{home_arrives}
use hammeregg.Rooster.Server.{
  handshaking, home_greeting, received, connection_step, handle_connection, route, handle_home_init,
}
use hammeregg.Backend.Handshake.{hello, signalling_handshake}

module _ ⦃env : Env⦄ (law : IsCodec env.packets) (init_law : IsCodec env.init_packets)
    (name : String) (s : Shared) (m w : Message)
    (said : hello ⦃inits = env.init_packets⦄ name ≡ ok m) where
  abbrev home_hello : HandshakeInitPacket
  home_hello = record { magic = magic_number; version = version_1_0; packet = home_init name }

  hello_read : deserialize_and_validate_packet ⦃c = env.init_packets⦄ m ≡ ok home_hello
  unfolding hello
  hello_read =
      let (p, made, written) = >>=-eq-ok (new version_1_0 (home_init name)) _ said in
      let (same, valid) = (new_iff version_1_0 (home_init name) p).0 made in
      deserialize_and_validate_packet-new ⦃c = env.init_packets⦄ version_1_0 (home_init name) p m
        init_law made written
      ∙ cc

  -- The packet with which a desktop introduces itself is accepted by a server that has no desktop
  -- of its name, and when the acceptance that the server wrote reaches the desktop, its handshake
  -- succeeds, if the encodings read back what they wrote.
  pub handshake_agrees :
      HashMap.get name s.desktops ≡ none
      → serialize_packet ⦃c = env.packets⦄ (home_init_response accepted) ≡ ok w
      → (connection_step handshaking (received (ok m)) s ≡ (home_greeting name (free w), s))
        × (signalling_handshake ⦃inits = env.init_packets⦄ ⦃packets = env.packets⦄ name
              (ok tt)
              (some (ok w))
            ≡ ok tt)
  unfolding signalling_handshake
  handshake_agrees unknown written = (
    home_arrives name s m w home_hello hello_read refl written unknown,
    rw (said, deserialize_packet-serialize_packet ⦃c = env.packets⦄ _ w law written),
  )

  refused_greeting :
      (d : DesktopAndPeers)
      → HashMap.get name s.desktops ≡ some d
      → serialize_packet ⦃c = env.packets⦄ name_taken ≡ ok w
      → handle_connection (some (ok m)) s ≡ (ok (home_greeting name (taken w)), s)
  unfolding handle_connection route handle_home_init
  refused_greeting d known written = rw (hello_read, home_greet-taken name s w d known written)

  -- When the server has a desktop of the name already, the packet with which a desktop introduces
  -- itself is answered with the refusal, and that refusal ends the desktop's handshake with the
  -- message that the name was already taken, if the encodings read back what they wrote.
  pub handshake_refused :
      (d : DesktopAndPeers)
      → HashMap.get name s.desktops ≡ some d
      → serialize_packet ⦃c = env.packets⦄ name_taken ≡ ok w
      → (connection_step handshaking (received (ok m)) s ≡ (home_greeting name (taken w), s))
        × (signalling_handshake ⦃inits = env.init_packets⦄ ⦃packets = env.packets⦄ name
              (ok tt)
              (some (ok w))
            ≡ err (message "Requested desktop name was already taken"))
  unfolding connection_step signalling_handshake
  handshake_refused d known written = (
    rw (refused_greeting d known written),
    rw (said, deserialize_packet-serialize_packet ⦃c = env.packets⦄ _ w law written),
  )
