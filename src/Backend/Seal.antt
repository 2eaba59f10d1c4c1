-- ===== src/Backend/Seal.antt =====
-- hammer/hammeregg_backend/src/net.rs and hammer/hammeregg_backend/src/key.rs: an offer is opened
-- with the desktop's key, and an answer is sealed for the remote.
pub mod Laws
use hammeregg.Prelude.{
  ℕ, String, List, numbered, message, Result, ok, err, ◌>>=◌, ◌>>◌, with_context, or_else_message,
  nat_eq, if◌then◌else◌,
}
use hammeregg.Prelude.Utf8.{is_utf8}
use hammeregg.Prelude.{length}
use hammeregg.Core.Packet.{Bytes, HandshakePacket, home_answer_success}
use hammeregg.Core.Wire.{Message, serialize_packet}
use hammeregg.Backend.Host.{Services}

abbrev pub aes_key_size : ℕ
aes_key_size = 32

abbrev pub aes_iv_size : ℕ
aes_iv_size = 12

abbrev pub check_length : String → Bytes → ℕ → Result (Unit {0})
check_length text bytes n =
    if nat_eq (length bytes) n then ok tt else err (numbered text (length bytes))

-- `String::from_utf8`
abbrev pub from_utf8 : Bytes → Result Bytes
from_utf8 bytes = if is_utf8 bytes then ok bytes else err (message "invalid utf-8")

module _ ⦃lib : Services⦄ where
  -- The offer in a payload.
  unfoldable pub open_offer : Bytes → Bytes → Bytes → Result Bytes
  open_offer key iv payload = do
    check_length "Invalid AES init vector length " iv aes_iv_size
    decrypted_key ←
        with_context (lib.home_decrypt key) "Signalling failed: couldn't decrypt remote key"
    check_length "Invalid AES key length " decrypted_key aes_key_size
    decrypted_payload ←
        or_else_message (lib.aes_decrypt decrypted_key iv payload)
          "Signalling failed: couldn't decrypt remote payload"
    with_context (from_utf8 decrypted_payload) "Signalling failed: offer was not a valid string"

  -- The packet with an answer, under a new key that only the remote can decrypt.
  unfoldable pub seal_answer : ℕ → Bytes → lib.Rng → Result HandshakePacket
  seal_answer peer answer rng = do
    let (key_filled, keyed) = lib.try_fill_bytes aes_key_size rng
    out_key ← with_context key_filled "Signalling failed: couldn't generate AES key"
    let (iv_filled, ready) = lib.try_fill_bytes aes_iv_size keyed
    out_iv ← with_context iv_filled "Signalling failed: couldn't generate AES init vector"
    encrypted_key ←
        with_context (lib.remote_encrypt ready out_key)
          "Signalling failed: key couldn't be encrypted"
    encrypted_answer ←
        or_else_message (lib.aes_encrypt out_key out_iv answer)
          "Signalling failed: answer couldn't be encrypted"
    ok (home_answer_success peer encrypted_key out_iv encrypted_answer)
