-- ===== src/Rooster/Remote/Forward.antt =====
-- hammer/hammeregg_rooster/src/main.rs: which offers of a remote reach its desktop.
use hammeregg.Prelude.{
  ℕ, String, ◌∷◌, ◌≡◌, ◌≢◌, ◌↔◌, ◌∙◌, ap, refl, arith, Result, ok, some, string_keys, with_context,
  with_context-eq-ok, or_message, or_message-eq-ok,
}
use hammeregg.Prelude.HashMap
use hammeregg.Core.Packet.{HandshakePacket, Bytes, remote_offer}
use hammeregg.Core.Wire.{Message, serialize_packet, deserialize_packet}
use hammeregg.Rooster.Peers.{DesktopAndPeers}
use hammeregg.Rooster.Task.{Env, Shared, sent, send_packet_inv, lift_inv}
use hammeregg.Rooster.Remote.{remote_packet, relay_offer}

-- What a remote sent is an offer, whatever peer it names, and the desktop `name` takes it: `t` is
-- `s` after the offer with the remote's own id in it was put into the desktop's channel.
pub record Forwards ⦃env : Env⦄ (name : String) (id : ℕ) (item : Result Message) (s t : Shared)
    : Type 0 where
  pub m : Message
  pub peer : ℕ
  pub key : Bytes
  pub iv : Bytes
  pub payload : Bytes
  pub desktop : DesktopAndPeers
  pub filled : Message
  pub was_read : item ≡ ok m
  pub decoded : deserialize_packet ⦃c = env.packets⦄ m ≡ ok (remote_offer peer key iv payload)
  pub registered : HashMap.get name s.desktops ≡ some desktop
  pub encoded : serialize_packet ⦃c = env.packets⦄ (remote_offer id key iv payload) ≡ ok filled
  pub taken : env.try_send s.log desktop.desktop_tx ≡ ok tt
  pub after : t ≡ record s { log = sent desktop.desktop_tx filled ∷ s.log }

module _ ⦃env : Env⦄ where
  relay_offer-failure :
      (name : String) (id : ℕ) (p : HandshakePacket) (s : Shared)
      → (relay_offer name id p s).0 ≢ ok tt
      → (relay_offer name id p s).1 ≡ s
  unfolding relay_offer
  relay_offer-failure name id p s = ground arith

  -- A packet of a remote whose handling fails or panics changes nothing that the tasks share.
  pub remote_packet-failure :
      (name : String) (id : ℕ) (item : Result Message) (s : Shared)
      → (remote_packet name id item s).0 ≢ ok tt
      → (remote_packet name id item s).1 ≡ s
  unfolding remote_packet
  remote_packet-failure name id item s = ground arith

  relay_offer_inv :
      (name : String) (id : ℕ) (p : HandshakePacket) (s t : Shared)
      → relay_offer name id p s ≡ (ok tt, t)
      → (peer : ℕ) × (key : Bytes) × (iv : Bytes) × (payload : Bytes) × (desktop : DesktopAndPeers)
        × (filled : Message) × (p ≡ remote_offer peer key iv payload)
        × (HashMap.get name s.desktops ≡ some desktop)
        × (serialize_packet ⦃c = env.packets⦄ (remote_offer id key iv payload) ≡ ok filled)
        × (env.try_send s.log desktop.desktop_tx ≡ ok tt)
        × (t ≡ record s { log = sent desktop.desktop_tx filled ∷ s.log })
  unfolding relay_offer
  relay_offer_inv name id (remote_offer peer key iv payload) s t h =
      let (desktop, found, h₁) = lift_inv (or_message (HashMap.get name s.desktops) _) _ s h in
      let (filled, encoded, h₂) =
        lift_inv (serialize_packet ⦃c = env.packets⦄ (remote_offer id key iv payload)) _ s h₁ in
      let (taken, after) = send_packet_inv desktop.desktop_tx filled s t h₂ in
      (
        peer,
        key,
        iv,
        payload,
        desktop,
        filled,
        refl,
        or_message-eq-ok _ _ found,
        encoded,
        taken,
        after,
      )
  relay_offer_inv name id _ s t h = cc

  remote_packet-Forwards :
      (name : String) (id : ℕ) (item : Result Message) (s t : Shared)
      → remote_packet name id item s ≡ (ok tt, t)
      → Forwards name id item s t
  unfolding remote_packet
  remote_packet-Forwards name id item s t h =
      let (m, was_read, h₁) = lift_inv (with_context item _) _ s h in
      let (packet, decoded, h₂) = lift_inv (deserialize_packet ⦃c = env.packets⦄ m) _ s h₁ in
      let (peer, key, iv, payload, desktop, filled, offer, registered, encoded, taken, after) =
        relay_offer_inv name id packet s t h₂ in
      record {
        m = m;
        peer = peer;
        key = key;
        iv = iv;
        payload = payload;
        desktop = desktop;
        filled = filled;
        was_read = with_context-eq-ok item _ was_read;
        decoded = decoded ∙ ap ok offer;
        registered = registered;
        encoded = encoded;
        taken = taken;
        after = after;
      }

  Forwards-remote_packet :
      (name : String) (id : ℕ) (item : Result Message) (s t : Shared)
      → Forwards name id item s t
      → remote_packet name id item s ≡ (ok tt, t)
  unfolding remote_packet
  Forwards-remote_packet name id item s t d = ground arith

  -- What a remote sends is passed on exactly when it is read, decodes to an offer, the desktop is
  -- in the map and its channel takes the packet; then the channel gets the offer with the id of
  -- this remote in the place of whatever id was in it, and nothing else changes.
  pub remote_packet_iff :
      (name : String) (id : ℕ) (item : Result Message) (s t : Shared)
      → (remote_packet name id item s ≡ (ok tt, t)) ↔ Forwards name id item s t
  remote_packet_iff name id item s t =
      (remote_packet-Forwards name id item s t, Forwards-remote_packet name id item s t)
