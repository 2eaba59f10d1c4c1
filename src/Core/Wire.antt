-- ===== src/Core/Wire.antt =====
-- hammer/hammeregg_core/src/lib.rs: packets as binary messages that hold BSON.
use hammeregg.Prelude.{String, ◌≡◌, message, Result, ok, err, ◌>>=◌, ◌>>◌, with_context}
use hammeregg.Core.Packet.{Bytes, Validate}

-- `tungstenite::Message`, of which the program only tells binary messages from all others (text,
-- ping, pong and close).
pub data Message : Type 0 where
  binary : Bytes → Message
  other : String → Message

-- `Serialize` and `Deserialize` of a packet type under the `bson` crate, whose code is not part
-- of the program.
pub record Codec (P : Type 0) : Type 0 where
  pub to_vec : P → Result Bytes
  pub from_slice : Bytes → Result P

-- What is documented of `bson`: it reads back what it has written.
pub record IsCodec {P : Type 0} (c : Codec P) : Type 0 where
  pub from_slice-to_vec : (p : P) (b : Bytes) → c.to_vec p ≡ ok b → c.from_slice b ≡ ok p

module _ {P : Type 0} ⦃c : Codec P⦄ where
  unfoldable pub serialize_packet : P → Result Message
  serialize_packet packet = do
    bytes ← with_context (c.to_vec packet) "Failed to serialize packet"
    ok (binary bytes)

  unfoldable pub deserialize_packet : Message → Result P
  deserialize_packet (binary bytes) =
      with_context (c.from_slice bytes) "Failed to deserialize packet"
  deserialize_packet (other kind) = err (message "Packet must be a binary message")

module _ {P : Type 0} ⦃c : Codec P⦄ ⦃v : Validate P⦄ where
  unfoldable pub deserialize_and_validate_packet : Message → Result P
  deserialize_and_validate_packet (binary bytes) = do
    packet ← with_context (c.from_slice bytes) "Failed to deserialize packet"
    v.validate packet
    ok packet
  deserialize_and_validate_packet (other kind) = err (message "Packet must be a binary message")
