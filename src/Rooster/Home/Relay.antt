-- ===== src/Rooster/Home/Relay.antt =====
-- hammer/hammeregg_rooster/src/main.rs: which answers of a desktop reach which peer.
use hammeregg.Prelude.{
  ℕ, String, ◌∷◌, ◌≡◌, ◌≢◌, ◌↔◌, refl, arith, Result, ok, some, string_keys, with_context,
  with_context-eq-ok,
}
use hammeregg.Prelude.HashMap
use hammeregg.Core.Packet.{HandshakePacket, home_answer_success, home_answer_failure}
use hammeregg.Core.Wire.{Message, deserialize_packet}
use hammeregg.Rooster.Peers.{Sender, DesktopAndPeers, get_peer}
use hammeregg.Rooster.Task.{Env, Shared, sent, lift_inv}
use hammeregg.Rooster.Home.{home_packet, relay_answer, send_to_peer}

-- The packet is an answer, a success or a failure, for a peer.
abbrev pub IsAnswerFor : ℕ → HandshakePacket → Type 0
IsAnswerFor id (home_answer_success peer key iv payload) = peer ≡ id
IsAnswerFor id (home_answer_failure peer error) = peer ≡ id
IsAnswerFor id _ = ⊥

-- What a desktop sent is an answer for a peer of the desktop `name`, whose channel takes it: `t`
-- is `s` after that one packet, as it came, was put into that one channel.
pub record Delivers ⦃env : Env⦄ (name : String) (item : Result Message) (s t : Shared)
    : Type 0 where
  pub m : Message
  pub packet : HandshakePacket
  pub peer : ℕ
  pub desktop : DesktopAndPeers
  pub tx : Sender
  pub was_read : item ≡ ok m
  pub decoded : deserialize_packet ⦃c = env.packets⦄ m ≡ ok packet
  pub addressed : IsAnswerFor peer packet
  pub registered : HashMap.get name s.desktops ≡ some desktop
  pub joined : get_peer desktop peer ≡ some tx
  pub taken : env.try_send s.log tx ≡ ok tt
  pub after : t ≡ record s { log = sent tx m ∷ s.log }

module _ ⦃env : Env⦄ where
  send_to_peer-failure :
      (name : String) (peer : ℕ) (m : Message) (s : Shared)
      → (send_to_peer name peer m s).0 ≢ ok tt
      → (send_to_peer name peer m s).1 ≡ s
  unfolding send_to_peer
  send_to_peer-failure name peer m s = ground arith

  relay_answer-failure :
      (name : String) (m : Message) (p : HandshakePacket) (s : Shared)
      → (relay_answer name m p s).0 ≢ ok tt
      → (relay_answer name m p s).1 ≡ s
  unfolding relay_answer
  relay_answer-failure name m p s = ground arith

  -- A packet of a desktop whose handling fails or panics changes nothing that the tasks share.
  pub home_packet-failure :
      (name : String) (item : Result Message) (s : Shared)
      → (home_packet name item s).0 ≢ ok tt
      → (home_packet name item s).1 ≡ s
  unfolding home_packet
  home_packet-failure name item s = ground arith

  send_to_peer_inv :
      (name : String) (peer : ℕ) (m : Message) (s t : Shared)
      → send_to_peer name peer m s ≡ (ok tt, t)
      → (d : DesktopAndPeers) × (tx : Sender) × (HashMap.get name s.desktops ≡ some d)
        × (get_peer d peer ≡ some tx)
        × (env.try_send s.log tx ≡ ok tt)
        × (t ≡ record s { log = sent tx m ∷ s.log })
  unfolding send_to_peer
  send_to_peer_inv name peer m s t h = ground arith

  relay_answer_inv :
      (name : String) (m : Message) (p : HandshakePacket) (s t : Shared)
      → relay_answer name m p s ≡ (ok tt, t)
      → (peer : ℕ) × IsAnswerFor peer p × (send_to_peer name peer m s ≡ (ok tt, t))
  unfolding relay_answer
  relay_answer_inv name m (home_answer_success peer key iv payload) s t h = (peer, refl, h)
  relay_answer_inv name m (home_answer_failure peer error) s t h = (peer, refl, h)
  relay_answer_inv name m _ s t h = cc

  home_packet-Delivers :
      (name : String) (item : Result Message) (s t : Shared)
      → home_packet name item s ≡ (ok tt, t)
      → Delivers name item s t
  unfolding home_packet
  home_packet-Delivers name item s t h =
      let (m, was_read, h₁) = lift_inv (with_context item _) _ s h in
      let (packet, decoded, h₂) = lift_inv (deserialize_packet ⦃c = env.packets⦄ m) _ s h₁ in
      let (peer, addressed, h₃) = relay_answer_inv name m packet s t h₂ in
      let (desktop, tx, registered, joined, taken, after) = send_to_peer_inv name peer m s t h₃ in
      record {
        m = m;
        packet = packet;
        peer = peer;
        desktop = desktop;
        tx = tx;
        was_read = with_context-eq-ok item _ was_read;
        decoded = decoded;
        addressed = addressed;
        registered = registered;
        joined = joined;
        taken = taken;
        after = after;
      }

  Delivers-home_packet :
      (name : String) (item : Result Message) (s t : Shared)
      → Delivers name item s t
      → home_packet name item s ≡ (ok tt, t)
  unfolding home_packet
  Delivers-home_packet name item s t d = ground arith

  -- What a desktop sends is passed on exactly when it is read, decodes to an answer for a peer of
  -- the desktop of that name, and the channel of that peer takes it; then it goes unchanged to
  -- that channel and nothing else changes.
  pub home_packet_iff :
      (name : String) (item : Result Message) (s t : Shared)
      → (home_packet name item s ≡ (ok tt, t)) ↔ Delivers name item s t
  home_packet_iff name item s t =
      (home_packet-Delivers name item s t, Delivers-home_packet name item s t)
