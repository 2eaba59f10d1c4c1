-- ===== src/Core/RoundTrip.antt =====
-- hammer/hammeregg_core/src/lib.rs: what is read back from an encoded packet.
use hammeregg.Prelude.{
  ℕ, ◌≡◌, refl, ◌∙◌, subst, ok, ok_inj, sym, ◌>>=◌, ◌>>◌, with_context-bind, >>=-eq-ok,
}
use hammeregg.Core.Packet.{
  HandshakePacket, HandshakeInitPacket, Validate, validate_init, init_validate, new,
}
use hammeregg.Core.Wire.{
  Message, binary, other, Codec, IsCodec, serialize_packet, deserialize_packet,
  deserialize_and_validate_packet,
}
use hammeregg.Core.Validation.{IsValid, validate_init_iff, new_iff}

module _ {P : Type 0} ⦃c : Codec P⦄ where
  -- A packet that could be written is read back unchanged, if the encoding reads back what it
  -- wrote.
  pub deserialize_packet-serialize_packet :
      (p : P) (m : Message) → IsCodec c → serialize_packet p ≡ ok m → deserialize_packet m ≡ ok p
  unfolding serialize_packet deserialize_packet
  deserialize_packet-serialize_packet p m law written =
      let (b, encoded, e) = with_context-bind (c.to_vec p) "Failed to serialize packet" _ written in
      rw (sym (ok_inj e), law.from_slice-to_vec p b encoded)

  -- Reading with validation is reading, and then the verdict of the validator, on every message.
  pub deserialize_and_validate_packet-eq :
      ⦃v : Validate P⦄ (m : Message)
      → deserialize_and_validate_packet m ≡ (deserialize_packet m >>= λ p. v.validate p >> ok p)
  unfolding deserialize_packet deserialize_and_validate_packet
  deserialize_and_validate_packet-eq (binary b) = refl
  deserialize_and_validate_packet-eq (other kind) = refl

-- A first packet that the constructor made and that could be written is read back unchanged by the
-- reader that validates, if the encoding reads back what it wrote.
pub deserialize_and_validate_packet-new :
    ⦃c : Codec HandshakeInitPacket⦄ (version : ℕ) (packet : HandshakePacket)
    (p : HandshakeInitPacket) (m : Message)
    → IsCodec c
    → new version packet ≡ ok p
    → serialize_packet p ≡ ok m
    → deserialize_and_validate_packet m ≡ ok p
deserialize_and_validate_packet-new version packet p m law made written = rw (
  deserialize_and_validate_packet-eq m,
  deserialize_packet-serialize_packet p m law written,
  (validate_init_iff p).1 ((new_iff version packet p).0 made).1,
)

-- What the reader that validates returns as a first packet is valid.
pub deserialize_and_validate_packet-IsValid :
    ⦃c : Codec HandshakeInitPacket⦄ (m : Message) (p : HandshakeInitPacket)
    → deserialize_and_validate_packet m ≡ ok p
    → IsValid p
deserialize_and_validate_packet-IsValid m p h =
    let (q, got, checked) =
      >>=-eq-ok (deserialize_packet m) _ (sym (deserialize_and_validate_packet-eq m) ∙ h) in
    let (done, valid, same) = >>=-eq-ok (validate_init q) _ checked in
    subst IsValid (ok_inj same) ((validate_init_iff q).0 valid)
