-- ===== src/Backend/Handshake.antt =====
-- hammer/hammeregg_backend/src/net.rs: the signalling handshake at the end of
-- `init_signalling_connection`, once the websocket is open.
pub mod Agreement
pub mod Accepted
use hammeregg.Prelude.{String, message, context, Result, ok, err, ◌>>=◌, ◌>>◌, or_message, Option}
use hammeregg.Core.Packet.{
  HandshakePacket, HandshakeInitPacket, ErrorMsg, Response, accepted, refused, home_init,
  home_init_response, version_1_0, new,
}
use hammeregg.Core.Wire.{Message, Codec, serialize_packet, deserialize_packet}

-- The first packet of a desktop.
unfoldable pub hello : ⦃inits : Codec HandshakeInitPacket⦄ → String → Result Message
hello desktop_name = do packet ← new version_1_0 (home_init desktop_name); serialize_packet packet

-- `response?`
abbrev check_response : Response → Result (Unit {0})
check_response accepted = ok tt
check_response (refused e) = err (message e.text)

expect_home_init_response : HandshakePacket → Result (Unit {0})
expect_home_init_response (home_init_response response) = check_response response
expect_home_init_response _ =
    err (message "Handshake failed: server did not respond HomeInitResponse to HomeInit")

-- The first packet is sent, with the given outcome, and the next item of the socket is the answer.
unfoldable pub signalling_handshake :
    ⦃inits : Codec HandshakeInitPacket⦄ ⦃packets : Codec HandshakePacket⦄
    → String
    → Result (Unit {0})
    → Option (Result Message)
    → Result (Unit {0})
unfolding hello expect_home_init_response
signalling_handshake desktop_name delivery item = do
  sent ← hello desktop_name
  delivery
  read ← or_message item "Handshake failed: could not read packet"
  m ← read
  packet ← deserialize_packet m
  expect_home_init_response packet
