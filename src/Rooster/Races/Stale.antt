-- ===== src/Rooster/Races/Stale.antt =====
-- hammer/hammeregg_rooster/src/main.rs: a remote that outlives its desktop.
use hammeregg.Prelude.{
  ℕ, suc, String, List, [], ◌∷◌, ◌≡◌, ap, arith, ok, none, some, string_keys, eq_iff, nat_keys,
}
use hammeregg.Prelude.HashMap
use hammeregg.Prelude.HashMap.{get-insert, get-remove}
use hammeregg.Core.Packet.{
  HandshakeInitPacket, home_init, remote_init, home_init_response, remote_init_response, accepted,
  init_validate,
}
use hammeregg.Core.Wire.{Message, serialize_packet, deserialize_and_validate_packet}
use hammeregg.Rooster.Peers.{DesktopAndPeers, new, get_peer, insert_peer, remove_peer}
use hammeregg.Rooster.Peers.Laws.{get_peer-remove_peer}
use hammeregg.Rooster.Task.{Env, Shared, drop_receiver}
use hammeregg.Rooster.Home.{free, home_disconnect, home_register}
use hammeregg.Rooster.Home.Disconnect.{home_disconnect-next_channel}
use hammeregg.Rooster.Remote.{present, remote_disconnect}
use hammeregg.Rooster.Server.{
  handshaking, home_greeting, home_serving, ended, received, delivered, finished, remote_greeting,
  remote_serving, Action, connection_step, accept, wake, run, system_step, wake_at,
}
use hammeregg.Rooster.Steps.{
  home_arrives, home_registered, home_finished, gone, remote_arrives, remote_registered,
  remote_finished,
}
use hammeregg.Rooster.Remote.Register.{remote_disconnect-desktops}

-- A desktop and a remote come, the desktop goes, another desktop of its name and another remote
-- come, and then the task of the first remote ends.
abbrev pub reconnect : Message → Message → List Action
reconnect m r =
    accept
    ∷ accept
    ∷ accept
    ∷ accept
    ∷ wake 0 (received (ok m))
    ∷ wake 0 (delivered (ok tt))
    ∷ wake 1 (received (ok r))
    ∷ wake 1 (delivered (ok tt))
    ∷ wake 0 finished
    ∷ wake 2 (received (ok m))
    ∷ wake 2 (delivered (ok tt))
    ∷ wake 3 (received (ok r))
    ∷ wake 3 (delivered (ok tt))
    ∷ wake 1 finished
    ∷ []

-- The state after a remote has joined the desktop `d`.
abbrev joined : String → DesktopAndPeers → Shared → Shared
joined name d s = record s {
  desktops = HashMap.insert name (insert_peer d s.next_channel).0 s.desktops;
  next_channel = suc s.next_channel;
}

registered :
    ⦃env : Env⦄ (name : String) (s : Shared)
    → HashMap.get name (home_register name s).1.desktops ≡ some (new s.next_channel)
unfolding home_register
registered name s =
    ground (arith, get-insert name name (new s.next_channel) s.desktops, eq_iff name name)

module _ ⦃env : Env⦄ (name : String) (s : Shared) (m r w v : Message) (p q : HandshakeInitPacket)
    (read_home : deserialize_and_validate_packet ⦃c = env.init_packets⦄ m ≡ ok p)
    (home : p.packet ≡ home_init name)
    (read_remote : deserialize_and_validate_packet ⦃c = env.init_packets⦄ r ≡ ok q)
    (remote : q.packet ≡ remote_init name)
    (home_written : serialize_packet ⦃c = env.packets⦄ (home_init_response accepted) ≡ ok w)
    (remote_written : serialize_packet ⦃c = env.packets⦄ (remote_init_response accepted) ≡ ok v)
    (unknown : HashMap.get name s.desktops ≡ none) where
  -- When a desktop leaves and another comes under its name while a remote of the first is still
  -- being served, the end of that remote's task removes the first remote of the second desktop,
  -- which is still connected, from the map: both have the id 0.
  pub stale_remote_evicts :
      let n = s.next_channel in
      let y = run (record { shared = s; connections = [] }) (reconnect m r) in
      (y.connections
        ≡ ended (ok tt)
          ∷ ended (ok tt)
          ∷ home_serving name (suc (suc n))
          ∷ remote_serving name 0 (suc (suc (suc n)))
          ∷ [])
      × ((d : DesktopAndPeers) × (HashMap.get name y.shared.desktops ≡ some d)
          × (d.desktop_tx ≡ suc (suc n))
          × (get_peer d 0 ≡ none))
  unfolding run system_step wake_at home_register insert_peer remove_peer new
  stale_remote_evicts =
      simp
        (
          arrives₁, home_registered, joins₁, joined₁, home_finished, arrives₂, joins₂, joined₂,
          remote_finished,
        )
        (
          ap
              (λ (k : ℕ).
                ended (ok tt)
                ∷ ended (ok tt)
                ∷ home_serving name k
                ∷ remote_serving name 0 (suc k)
                ∷ [])
              next,
          (evicted, left_desktop, next, get_peer-remove_peer _ 0 0),
        )
    where
      t₁ : Shared
      t₁ = (home_register name s).1

      known₁ : HashMap.get name t₁.desktops ≡ some (new s.next_channel)
      known₁ = registered name s

      t₂ : Shared
      t₂ = joined name (new s.next_channel) t₁

      t₃ : Shared
      t₃ = drop_receiver s.next_channel (home_disconnect name t₂).1

      t₄ : Shared
      t₄ = (home_register name t₃).1

      arrives₁ : connection_step handshaking (received (ok m)) s ≡ (home_greeting name (free w), s)
      arrives₁ = home_arrives name s m w p read_home home home_written unknown

      arrives₂ :
          connection_step handshaking (received (ok m)) t₃ ≡ (home_greeting name (free w), t₃)
      arrives₂ = home_arrives name t₃ m w p read_home home home_written (gone name t₂)

      joins₁ :
          connection_step handshaking (received (ok r)) t₁ ≡ (remote_greeting name (present v), t₁)
      joins₁ = remote_arrives name t₁ r v q read_remote remote remote_written _ known₁

      joins₂ :
          connection_step handshaking (received (ok r)) t₄ ≡ (remote_greeting name (present v), t₄)
      joins₂ = remote_arrives name t₄ r v q read_remote remote remote_written _ (registered name t₃)

      joined₁ :
          connection_step (remote_greeting name (present v)) (delivered (ok tt)) t₁
          ≡ (remote_serving name 0 t₁.next_channel, t₂)
      joined₁ = remote_registered name v t₁ _ known₁

      joined₂ :
          connection_step (remote_greeting name (present v)) (delivered (ok tt)) t₄
          ≡ (remote_serving name 0 t₄.next_channel, joined name (new t₃.next_channel) t₄)
      joined₂ = remote_registered name v t₄ _ (registered name t₃)

      t₅ : Shared
      t₅ = joined name (new t₃.next_channel) t₄

      next : t₃.next_channel ≡ suc (suc s.next_channel)
      next = home_disconnect-next_channel name t₂

      second : DesktopAndPeers
      second = (insert_peer (new t₃.next_channel) t₄.next_channel).0

      evicted : DesktopAndPeers
      evicted = remove_peer second 0

      left_desktop : HashMap.get name (remote_disconnect name 0 t₅).1.desktops ≡ some evicted
      left_desktop = ground (
        arith,
        remote_disconnect-desktops name name 0 t₅,
        eq_iff name name,
        get-insert name name second t₄.desktops,
      )
