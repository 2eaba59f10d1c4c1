-- ===== src/Rooster/Steps.antt =====
-- hammer/hammeregg_rooster/src/main.rs: the steps of a connection whose waits all end well.
use hammeregg.Prelude.{
  ℕ, suc, String, ◌≡◌, refl, arith, ok, none, some, string_keys, eq_iff, nat_keys,
}
use hammeregg.Prelude.HashMap
use hammeregg.Prelude.HashMap.{get-insert, get-remove}
use hammeregg.Core.Packet.{
  HandshakeInitPacket, home_init, remote_init, home_init_response, remote_init_response, accepted,
  init_validate,
}
use hammeregg.Core.Wire.{Message, serialize_packet, deserialize_and_validate_packet}
use hammeregg.Rooster.Peers.{Sender, DesktopAndPeers, insert_peer}
use hammeregg.Rooster.Task.{Env, Shared, drop_receiver}
use hammeregg.Rooster.Home.{free, home_disconnect, home_register}
use hammeregg.Rooster.Home.Greet.{home_greet-free}
use hammeregg.Rooster.Home.Disconnect.{home_disconnect-desktops}
use hammeregg.Rooster.Remote.{present, remote_greet, remote_disconnect}
use hammeregg.Rooster.Remote.Register.{remote_register_lem}
use hammeregg.Rooster.Server.{
  handshaking, home_greeting, home_serving, ended, received, delivered, finished, handle_connection,
  route, handle_home_init, home_greeted, handle_remote_init, remote_greeting, remote_greeted,
  remote_serving, connection_step,
}

module _ ⦃env : Env⦄ (name : String) (s : Shared) (m w : Message) (p : HandshakeInitPacket)
    (read : deserialize_and_validate_packet ⦃c = env.init_packets⦄ m ≡ ok p)
    (home : p.packet ≡ home_init name)
    (written : serialize_packet ⦃c = env.packets⦄ (home_init_response accepted) ≡ ok w) where
  home_handshake :
      HashMap.get name s.desktops ≡ none
      → handle_connection (some (ok m)) s ≡ (ok (home_greeting name (free w)), s)
  unfolding handle_connection route handle_home_init
  home_handshake unknown = rw (read, home, home_greet-free name s w unknown written)

  pub home_arrives :
      HashMap.get name s.desktops ≡ none
      → connection_step handshaking (received (ok m)) s ≡ (home_greeting name (free w), s)
  unfolding connection_step
  home_arrives unknown = rw (home_handshake unknown)

module _ ⦃env : Env⦄ where
  pub home_registered :
      (name : String) (w : Message) (s : Shared)
      → connection_step (home_greeting name (free w)) (delivered (ok tt)) s
        ≡ (home_serving name s.next_channel, (home_register name s).1)
  unfolding connection_step home_greeted home_register
  home_registered name w s = refl

  pub home_finished :
      (name : String) (tx : Sender) (s : Shared)
      → connection_step (home_serving name tx) finished s
        ≡ (ended (ok tt), drop_receiver tx (home_disconnect name s).1)
  unfolding connection_step home_disconnect
  home_finished name tx s = refl

  pub gone :
      (name : String) (s : Shared) → HashMap.get name (home_disconnect name s).1.desktops ≡ none
  gone name s = ground (arith, home_disconnect-desktops name name s, eq_iff name name)

module _ ⦃env : Env⦄ (name : String) (s : Shared) (m w : Message) (p : HandshakeInitPacket)
    (read : deserialize_and_validate_packet ⦃c = env.init_packets⦄ m ≡ ok p)
    (home : p.packet ≡ remote_init name)
    (written : serialize_packet ⦃c = env.packets⦄ (remote_init_response accepted) ≡ ok w)
    (d : DesktopAndPeers) (known : HashMap.get name s.desktops ≡ some d) where
  remote_greet-present : remote_greet name s ≡ (ok (present w), s)
  unfolding remote_greet
  remote_greet-present = ground arith

  remote_handshake : handle_connection (some (ok m)) s ≡ (ok (remote_greeting name (present w)), s)
  unfolding handle_connection route handle_remote_init
  remote_handshake = rw (read, home, remote_greet-present)

  pub remote_arrives :
      connection_step handshaking (received (ok m)) s ≡ (remote_greeting name (present w), s)
  unfolding connection_step
  remote_arrives = rw remote_handshake

module _ ⦃env : Env⦄ where
  pub remote_registered :
      (name : String) (w : Message) (s : Shared) (d : DesktopAndPeers)
      → HashMap.get name s.desktops ≡ some d
      → connection_step (remote_greeting name (present w)) (delivered (ok tt)) s ≡ (
        remote_serving name (insert_peer d s.next_channel).1 s.next_channel,
        record s {
          desktops = HashMap.insert name (insert_peer d s.next_channel).0 s.desktops;
          next_channel = suc s.next_channel;
        },
      )
  unfolding connection_step remote_greeted
  remote_registered name w s d known = rw (remote_register_lem name s d known)

  pub remote_finished :
      (name : String) (id : ℕ) (tx : Sender) (s : Shared)
      → connection_step (remote_serving name id tx) finished s
        ≡ (ended (ok tt), drop_receiver tx (remote_disconnect name id s).1)
  unfolding connection_step remote_disconnect
  remote_finished name id tx s = refl
