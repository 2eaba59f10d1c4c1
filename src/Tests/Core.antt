-- ===== src/Tests/Core.antt =====
-- hammer/hammeregg_core/src/lib.rs at work.
use hammeregg.Prelude.{ℕ, String, ◌≡◌, ◌↔◌, ◌+◌, ◌*◌, refl, List, [], ◌∷◌, ok}
use hammeregg.Prelude.Int.{pos, as_i64}
use hammeregg.Core.Packet.{
  HandshakePacket, HandshakeInitPacket, home_init, home_init_response, remote_offer, accepted,
  magic_number, version_1_0, validate_init, init_validate, new,
}
use hammeregg.Core.Wire.{Message, binary, serialize_packet, deserialize_and_validate_packet}
use hammeregg.Core.Validation.{IsValid, validate_init_iff}
use hammeregg.Core.RoundTrip.{deserialize_and_validate_packet-new}
use hammeregg.Tests.Encoding.{init_codec, init_codec-IsCodec, hello}

-- The bytes of the hammer and the egg in UTF-8, read as one big-endian number.
abbrev utf8_bytes : List ℕ
utf8_bytes = 0xf0 ∷ 0x9f ∷ 0x94 ∷ 0xa8 ∷ 0xf0 ∷ 0x9f ∷ 0xa5 ∷ 0x9a ∷ []

abbrev big_endian : ℕ → List ℕ → ℕ
big_endian n [] = n
big_endian n (b ∷ bs) = big_endian (n * 256 + b) bs

magic_is_hammer_and_egg : magic_number ≡ as_i64 (big_endian 0 utf8_bytes)
magic_is_hammer_and_egg = refl

abbrev home_hello : HandshakeInitPacket
home_hello = hello (home_init "home")

validate_init_iff_example : (validate_init home_hello ≡ ok tt) ↔ IsValid home_hello
validate_init_iff_example = validate_init_iff home_hello

abbrev bad_hello : HandshakeInitPacket
bad_hello = record { magic = pos 1; version = version_1_0; packet = home_init_response accepted }

abbrev bad_fields : List (String × String)
bad_fields =
    ("magic", "Invalid magic number!")
    ∷ ("packet", "Init packet contents must be either HomeInit or RemoteInit")
    ∷ []

abbrev offer : HandshakePacket
offer = remote_offer 3 (1 ∷ 2 ∷ []) (3 ∷ []) (4 ∷ 5 ∷ [])

abbrev offer_message : Message
offer_message = binary (6 ∷ 3 ∷ 2 ∷ 3 ∷ 0 ∷ 4 ∷ 0 ∷ 5 ∷ 6 ∷ 0 ∷ [])

abbrev home_message : Message
home_message = binary (1 ∷ 1108003529997441637 ∷ 65536 ∷ 0 ∷ 0 ∷ [])

deserialize_and_validate_packet-new_example :
    deserialize_and_validate_packet ⦃c = init_codec⦄ home_message ≡ ok home_hello
deserialize_and_validate_packet-new_example =
    deserialize_and_validate_packet-new ⦃c = init_codec⦄ version_1_0 (home_init "home") home_hello
      home_message init_codec-IsCodec (unfold new in refl) (unfold serialize_packet in refl)
