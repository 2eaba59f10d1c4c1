-- ===== src/Rooster/Server/Pieces.antt =====
-- hammer/hammeregg_rooster/src/main.rs: the pieces of the handlers, and the roles of the channels.
use hammeregg.Prelude.{
  ℕ, suc, ◌≤◌, String, List, [], ◌∷◌, ◌≡◌, ◌≢◌, refl, sym, subst, arith, Bool, true, false, Option,
  none, some, ok, err, panic, Result, string_keys, nat_keys,
}
use hammeregg.Prelude.HashMap
use hammeregg.Prelude.HashMap.{get-insert, get-remove}
use hammeregg.Core.Packet.{HandshakePacket, remote_offer, home_answer_success, home_answer_failure}
use hammeregg.Core.Wire.{Message, IsCodec}
use hammeregg.Core.RoundTrip.{deserialize_packet-serialize_packet}
use hammeregg.Rooster.Peers.{Sender, DesktopAndPeers, new, get_peer, insert_peer, remove_peer}
use hammeregg.Rooster.Peers.Laws.{get_peer-new, get_peer-insert_peer, get_peer-remove_peer}
use hammeregg.Rooster.Task.{Env, Shared, Event, sent, closed, close_channel}
use hammeregg.Rooster.Home.{home_register, home_packet, home_disconnect, close_peers, close_desktop}
use hammeregg.Rooster.Home.Relay.{IsAnswerFor, home_packet-failure, home_packet_iff}
use hammeregg.Rooster.Remote.Forward.{remote_packet-failure, remote_packet_iff}
use hammeregg.Rooster.Remote.{remote_packet, remote_disconnect, leave}
use hammeregg.Rooster.Server.Roles.{
  Roles, Fits, Has, IsRouted, IsSorted, Agree, update, Agree-update, Has-mono, All-IsRouted-mono,
}

module _ ⦃env : Env⦄ (role : Roles) (s : Shared) (v : IsSorted role s) where
  -- The entries of the map and the channels stay, and the log grows by what is no packet.
  insert-IsSorted :
      (name : String) (d : DesktopAndPeers)
      → Has role s.next_channel true d.desktop_tx
      → ((id : ℕ) (tx : Sender) → get_peer d id ≡ some tx → Has role s.next_channel false tx)
      → IsSorted role (record s { desktops = HashMap.insert name d s.desktops })
  insert-IsSorted name d home peers = record {
    homes = λ j e found. ground (arith, v.homes j e, get-insert name j d s.desktops);
    peers = λ j e id tx found joined.
        ground (arith, v.peers j e id tx, get-insert name j d s.desktops, peers id tx);
    sends = v.sends;
  }

  remove-IsSorted :
      (name : String) → IsSorted role (record s { desktops = HashMap.remove name s.desktops })
  remove-IsSorted name = record {
    homes = λ j e found. ground (arith, v.homes j e, get-remove name j s.desktops);
    peers =
        λ j e id tx found joined. ground (arith, v.peers j e id tx, get-remove name j s.desktops);
    sends = v.sends;
  }

  -- A new channel of either role.
  pub bump-IsSorted :
      (b : Bool)
      → IsSorted (update role s.next_channel b) (record s { next_channel = suc s.next_channel })
  bump-IsSorted b = record {
    homes = λ j e found. Has-mono more agree true e.desktop_tx (v.homes j e found);
    peers = λ j e id tx found joined. Has-mono more agree false tx (v.peers j e id tx found joined);
    sends = All-IsRouted-mono more agree s.log v.sends;
  }
    where
      more : s.next_channel ≤ suc s.next_channel
      more = omega arith

      agree : Agree role (update role s.next_channel b) s.next_channel
      agree = Agree-update role s.next_channel b

  pub log-IsSorted :
      (e : Event) → IsRouted role s.next_channel e → IsSorted role (record s { log = e ∷ s.log })
  log-IsSorted e r = record { homes = v.homes; peers = v.peers; sends = (r, v.sends) }

answer-Fits : (id : ℕ) (p : HandshakePacket) → IsAnswerFor id p → Fits false p
answer-Fits id (home_answer_success peer key iv payload) h = tt
answer-Fits id (home_answer_failure peer error) h = tt
answer-Fits id _ h = h

module _ ⦃env : Env⦄ (role : Roles) where
  close_peers-IsSorted :
      (peers : List (ℕ × Sender)) (s : Shared)
      → IsSorted role s
      → IsSorted role (close_peers peers s)
  close_peers-IsSorted [] s v = v
  close_peers-IsSorted ((id, tx) ∷ rest) s v =
      close_peers-IsSorted rest (close_channel tx s) (log-IsSorted role s v (closed tx) tt)

  close_desktop-IsSorted :
      (o : Option DesktopAndPeers) (s : Shared)
      → IsSorted role s
      → IsSorted role (close_desktop o s)
  close_desktop-IsSorted none s v = v
  close_desktop-IsSorted (some d) s v = close_peers-IsSorted d.peers s v

  pub home_disconnect-IsSorted :
      (name : String) (s : Shared) → IsSorted role s → IsSorted role (home_disconnect name s).1
  unfolding home_disconnect
  home_disconnect-IsSorted name s v =
      close_desktop-IsSorted (HashMap.get name s.desktops) _ (remove-IsSorted role s v name)

  leave-IsSorted :
      (name : String) (id : ℕ) (o : Option DesktopAndPeers) (s : Shared)
      → HashMap.get name s.desktops ≡ o
      → IsSorted role s
      → IsSorted role (leave name id o s)
  leave-IsSorted name id none s found v = v
  leave-IsSorted name id (some d) s found v =
      insert-IsSorted role s v name (remove_peer d id) (unfold remove_peer in v.homes name d found)
        (λ k tx joined. ground (arith, get_peer-remove_peer d id k, v.peers name d k tx found))

  pub remote_disconnect-IsSorted :
      (name : String) (id : ℕ) (s : Shared)
      → IsSorted role s
      → IsSorted role (remote_disconnect name id s).1
  unfolding remote_disconnect
  remote_disconnect-IsSorted name id s v =
      leave-IsSorted name id (HashMap.get name s.desktops) s refl v

  -- An answer goes to a remote's channel, and an offer to a desktop's.
  pub home_packet-IsSorted :
      (name : String) (item : Result Message) (s : Shared)
      → IsSorted role s
      → IsSorted role (home_packet name item s).1
  home_packet-IsSorted name item s v = go (home_packet name item s) refl
    where
      same : (home_packet name item s).0 ≢ ok tt → IsSorted role (home_packet name item s).1
      same h = subst (IsSorted role) (sym (home_packet-failure name item s h)) v

      go : (r : Result Unit × Shared) → home_packet name item s ≡ r → IsSorted role r.1
      go (ok u, t) e =
          let d = (home_packet_iff name item s t).0 e in
          let (lt, r) = v.peers name d.desktop d.peer d.tx d.registered d.joined in
          subst (IsSorted role) (sym d.after) (
            log-IsSorted role s v (sent d.tx d.m) (
              d.packet,
              lt,
              d.decoded,
              subst (λ b. Fits b d.packet) (sym r) (answer-Fits d.peer d.packet d.addressed),
            ))
      go (err x, t) e = subst (λ (r : Result Unit × Shared). IsSorted role r.1) e (same (λ h. cc))
      go (panic, t) e = subst (λ (r : Result Unit × Shared). IsSorted role r.1) e (same (λ h. cc))

  pub remote_packet-IsSorted :
      (law : IsCodec env.packets) (name : String) (id : ℕ) (item : Result Message) (s : Shared)
      → IsSorted role s
      → IsSorted role (remote_packet name id item s).1
  remote_packet-IsSorted law name id item s v = go (remote_packet name id item s) refl
    where
      same :
          (remote_packet name id item s).0 ≢ ok tt → IsSorted role (remote_packet name id item s).1
      same h = subst (IsSorted role) (sym (remote_packet-failure name id item s h)) v

      go : (r : Result Unit × Shared) → remote_packet name id item s ≡ r → IsSorted role r.1
      go (ok u, t) e =
          let d = (remote_packet_iff name id item s t).0 e in
          let (lt, r) = v.homes name d.desktop d.registered in
          subst (IsSorted role) (sym d.after) (
            log-IsSorted role s v (sent d.desktop.desktop_tx d.filled) (
              remote_offer id d.key d.iv d.payload,
              lt,
              deserialize_packet-serialize_packet ⦃c = env.packets⦄ _ d.filled law d.encoded,
              subst (λ b. Fits b (remote_offer id d.key d.iv d.payload)) (sym r) tt,
            ))
      go (err x, t) e = subst (λ (r : Result Unit × Shared). IsSorted role r.1) e (same (λ h. cc))
      go (panic, t) e = subst (λ (r : Result Unit × Shared). IsSorted role r.1) e (same (λ h. cc))

-- After the joining of a desktop or a remote, for the role that its channel gets.
module _ ⦃env : Env⦄ (role : Roles) (name : String) (s : Shared) (v : IsSorted role s) where
  pub home_register-IsSorted : IsSorted (update role s.next_channel true) (home_register name s).1
  unfolding home_register new
  home_register-IsSorted =
      insert-IsSorted _ _ (bump-IsSorted role s v true) name (new s.next_channel)
        (omega arith, ground arith) (λ id tx joined. cc (get_peer-new s.next_channel id))

  pub remote_register-IsSorted :
      (d : DesktopAndPeers)
      → HashMap.get name s.desktops ≡ some d
      → IsSorted (update role s.next_channel false) (record s {
        desktops = HashMap.insert name (insert_peer d s.next_channel).0 s.desktops;
        next_channel = suc s.next_channel;
      })
  remote_register-IsSorted d known =
      insert-IsSorted _ _ grown name (insert_peer d s.next_channel).0
        (unfold insert_peer in
          Has-mono (omega arith) (Agree-update role s.next_channel false) true d.desktop_tx
            (v.homes name d known))
        (λ id tx joined.
          ground (arith, get_peer-insert_peer d s.next_channel id, v.peers name d id tx known))
    where
      grown :
          IsSorted
            (update role s.next_channel false)
            (record s { next_channel = suc s.next_channel })
      grown = bump-IsSorted role s v false
