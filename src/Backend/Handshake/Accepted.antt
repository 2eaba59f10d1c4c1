-- ===== src/Backend/Handshake/Accepted.antt =====
-- hammer/hammeregg_backend/src/net.rs: when the handshake of a desktop succeeds.
use hammeregg.Prelude.{
  String, ◌≡◌, ◌↔◌, refl, ◌∙◌, ap, Result, ok, >>=-eq-ok, Option, some, or_message,
  or_message-eq-ok,
}
use hammeregg.Core.Packet.{
  HandshakePacket, HandshakeInitPacket, Response, accepted, refused, home_init, home_init_response,
  remote_init, remote_init_response, remote_offer, home_answer_success, home_answer_failure,
}
use hammeregg.Core.Wire.{Message, Codec, deserialize_packet}
use hammeregg.Backend.Handshake.{
  hello, expect_home_init_response, check_response, signalling_handshake,
}

check_response-ok : (r : Response) → check_response r ≡ ok tt → r ≡ accepted
check_response-ok accepted h = refl
check_response-ok (refused e) h = cc

expect-accepted :
    (packet : HandshakePacket)
    → expect_home_init_response packet ≡ ok tt
    → packet ≡ home_init_response accepted
unfolding expect_home_init_response
expect-accepted (home_init name) h = cc
expect-accepted (home_init_response r) h = ap home_init_response (check_response-ok r h)
expect-accepted (remote_init name) h = cc
expect-accepted (remote_init_response r) h = cc
expect-accepted (remote_offer peer key iv payload) h = cc
expect-accepted (home_answer_success peer key iv payload) h = cc
expect-accepted (home_answer_failure peer error) h = cc

module _ ⦃inits : Codec HandshakeInitPacket⦄ ⦃packets : Codec HandshakePacket⦄ where
  pub signalling_handshake_iff :
      (name : String) (delivery : Result (Unit {0})) (item : Option (Result Message))
      → (signalling_handshake name delivery item ≡ ok tt) ↔ (
          (m : Message) × (w : Message) × (hello name ≡ ok m)
          × (delivery ≡ ok tt)
          × (item ≡ some (ok w))
          × (deserialize_packet w ≡ ok (home_init_response accepted)))
  unfolding signalling_handshake
  signalling_handshake_iff name delivery item = (
    λ h.
        let (m, said, h1) = >>=-eq-ok (hello name) _ h in
        let (done, sent, h2) = >>=-eq-ok delivery _ h1 in
        let (answer, there, h3) = >>=-eq-ok (or_message item _) _ h2 in
        let (w, read, h4) = >>=-eq-ok answer _ h3 in
        let (packet, decoded, h5) = >>=-eq-ok (deserialize_packet w) _ h4 in
        (
          m,
          w,
          said,
          sent,
          or_message-eq-ok item _ there ∙ ap some read,
          decoded ∙ ap ok (expect-accepted packet h5),
        ),
    λ (m, w, said, sent, there, decoded).
        rw (signalling_handshake, said, sent, there, decoded) refl,
  )
