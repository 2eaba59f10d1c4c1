-- ===== src/Rooster/Home.antt =====
-- hammer/hammeregg_rooster/src/main.rs: `handle_home_init`, the task of a desktop, in the pieces
-- that run between its waits: the answer to the first packet, the registration, one incoming
-- packet, and the end.
pub mod Greet
pub mod Relay
pub mod Disconnect
use hammeregg.Prelude.{
  ℕ, String, List, [], ◌∷◌, message, Result, with_context, or_message, unwrap, Option, some, Bool,
  true, false, string_keys,
}
use hammeregg.Prelude.HashMap
use hammeregg.Core.Packet.{
  HandshakePacket, home_init_response, accepted, refused, home_answer_success, home_answer_failure,
}
use hammeregg.Core.Wire.{Message, serialize_packet, deserialize_packet}
use hammeregg.Rooster.Peers.{Sender, DesktopAndPeers, new, get_peer}
use hammeregg.Rooster.Task.{
  Env, Shared, Task, ◌>>=◌, ◌>>◌, pure, lift, raise, gets, modify, unbounded, send_packet,
  close_channel,
}

-- What the task waits for after its first step: the response is on its way, and the name was
-- taken or not.
pub data Greeting : Type 0 where
  taken : Message → Greeting
  free : Message → Greeting

abbrev register : String → Sender → Shared → Shared
register home_name tx s = record s { desktops = HashMap.insert home_name (new tx) s.desktops }

-- The senders of a desktop's peers.
abbrev pub close_peers : List (ℕ × Sender) → Shared → Shared
close_peers [] s = s
close_peers ((id, peer) ∷ rest) s = close_peers rest (close_channel peer s)

abbrev pub close_desktop : Option DesktopAndPeers → Shared → Shared
close_desktop (some desktop) s = close_peers desktop.peers s
close_desktop _ s = s

module _ ⦃env : Env⦄ where
  greet : String → Bool → Task Greeting
  greet home_name true = do
    m ← lift (
        serialize_packet ⦃c = env.packets⦄ (
          home_init_response
            (refused (record { text = "Requested desktop name was already taken" }))))
    pure (taken m)
  greet home_name false = do
    m ← lift (serialize_packet ⦃c = env.packets⦄ (home_init_response accepted))
    pure (free m)

  -- The first part: the look-up and the response.
  unfoldable pub home_greet : String → Task Greeting
  unfolding greet
  home_greet home_name = do
    found ← gets (λ s. HashMap.contains_key home_name s.desktops)
    greet home_name found

  -- After the response: the new channel and the entry of the map.
  unfoldable pub home_register : String → Task Sender
  home_register home_name = do tx ← unbounded; modify (register home_name tx); pure tx

  -- An answer goes to the peer that it names, as it came.
  send_to_peer : String → ℕ → Message → Task (Unit {0})
  unfolding send_packet get_peer
  send_to_peer home_name peer m = do
    found ← gets (λ s. HashMap.get home_name s.desktops)
    desktop ← lift (unwrap found)
    tx ←
        lift
          (or_message (get_peer desktop peer) "Signalling failed: peer does not exist (any longer)")
    send_packet tx m

  relay_answer : String → Message → HandshakePacket → Task (Unit {0})
  unfolding send_to_peer
  relay_answer home_name m (home_answer_success peer key iv payload) = send_to_peer home_name peer m
  relay_answer home_name m (home_answer_failure peer error) = send_to_peer home_name peer m
  relay_answer home_name m _ =
      raise
        (message "Signalling failed: did not get a HomeAnswerSuccess or HomeAnswerResponse packet")

  -- The body of the loop over what the desktop sends.
  unfoldable pub home_packet : String → Result Message → Task (Unit {0})
  unfolding relay_answer
  home_packet home_name item = do
    m ← lift (with_context item "Signalling failed: could not read packet")
    packet ← lift (deserialize_packet ⦃c = env.packets⦄ m)
    relay_answer home_name m packet

  -- The end, when one of the two directions is done: the entry goes, and every peer is closed.
  unfoldable pub home_disconnect : String → Task (Unit {0})
  home_disconnect home_name = do
    desktop ← gets (λ s. HashMap.get home_name s.desktops)
    modify (λ s. record s { desktops = HashMap.remove home_name s.desktops })
    modify (close_desktop desktop)
