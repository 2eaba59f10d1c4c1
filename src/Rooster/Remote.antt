-- ===== src/Rooster/Remote.antt =====
-- hammer/hammeregg_rooster/src/main.rs: `handle_remote_init`, the task of a remote, in the pieces
-- that run between its waits.
pub mod Forward
pub mod Register
use hammeregg.Prelude.{
  ℕ, String, message, Result, with_context, or_message, Option, some, Bool, true, false,
  string_keys,
}
use hammeregg.Prelude.HashMap
use hammeregg.Core.Packet.{HandshakePacket, remote_init_response, accepted, refused, remote_offer}
use hammeregg.Core.Wire.{Message, serialize_packet, deserialize_packet}
use hammeregg.Rooster.Peers.{Sender, DesktopAndPeers, insert_peer, remove_peer}
use hammeregg.Rooster.Task.{
  Env, Shared, Task, ◌>>=◌, ◌>>◌, pure, lift, raise, gets, modify, unbounded, send_packet,
}

-- The response is on its way, and the desktop was found or not.
pub data Greeting : Type 0 where
  missing : Message → Greeting
  present : Message → Greeting

abbrev store : String → DesktopAndPeers → Shared → Shared
store home_name desktop s = record s { desktops = HashMap.insert home_name desktop s.desktops }

abbrev pub leave : String → ℕ → Option DesktopAndPeers → Shared → Shared
leave home_name id (some desktop) s = store home_name (remove_peer desktop id) s
leave home_name id _ s = s

module _ ⦃env : Env⦄ where
  greet : String → Bool → Task Greeting
  greet home_name false = do
    m ← lift (
        serialize_packet ⦃c = env.packets⦄
          (remote_init_response (refused (record { text = "Requested desktop not found" }))))
    pure (missing m)
  greet home_name true = do
    m ← lift (serialize_packet ⦃c = env.packets⦄ (remote_init_response accepted))
    pure (present m)

  unfoldable pub remote_greet : String → Task Greeting
  unfolding greet
  remote_greet home_name = do
    found ← gets (λ s. HashMap.contains_key home_name s.desktops)
    greet home_name found

  -- After the response: the new channel, and the peer's id and entry under its desktop.
  unfoldable pub remote_register : String → Task (ℕ × Sender)
  remote_register home_name = do
    tx ← unbounded
    found ← gets (λ s. HashMap.get home_name s.desktops)
    desktop ← lift (or_message found "Desktop disappeared during remote init?")
    let joined = insert_peer desktop tx
    modify (store home_name joined.0)
    pure (joined.1, tx)

  relay_offer : String → ℕ → HandshakePacket → Task (Unit {0})
  unfolding send_packet
  relay_offer home_name id (remote_offer peer key iv payload) = do
    found ← gets (λ s. HashMap.get home_name s.desktops)
    desktop ← lift (or_message found "Desktop does not exist any longer")
    filled_packet ← lift (serialize_packet ⦃c = env.packets⦄ (remote_offer id key iv payload))
    send_packet desktop.desktop_tx filled_packet
  relay_offer home_name id _ = raise (message "Signalling failed: did not get a RemoteOffer packet")

  -- The body of the loop over what the remote sends.
  unfoldable pub remote_packet : String → ℕ → Result Message → Task (Unit {0})
  unfolding relay_offer
  remote_packet home_name id item = do
    m ← lift (with_context item "Signalling failed: could not read packet")
    packet ← lift (deserialize_packet ⦃c = env.packets⦄ m)
    relay_offer home_name id packet

  -- The end: the peer leaves its desktop, if that is still there.
  unfoldable pub remote_disconnect : String → ℕ → Task (Unit {0})
  unfolding remove_peer
  remote_disconnect home_name id = do
    found ← gets (λ s. HashMap.get home_name s.desktops)
    modify (leave home_name id found)
