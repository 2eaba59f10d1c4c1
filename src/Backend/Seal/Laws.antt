-- ===== src/Backend/Seal/Laws.antt =====
-- hammer/hammeregg_backend/src/net.rs: which offers are opened, and what the remote can read in an
-- answer.
use hammeregg.Prelude.{
  ℕ, String, err, panic, ◌≡◌, ◌↔◌, arith, refl, true, ok, Result, ◌>>=◌, with_context-bind, length,
  or_else_message, ok_inj, sym,
}
use hammeregg.Prelude.Utf8.{is_utf8}
use hammeregg.Core.Packet.{Bytes, HandshakePacket, home_answer_success}
use hammeregg.Backend.Host.{Services}
use hammeregg.Backend.Seal.{aes_key_size, aes_iv_size, open_offer, seal_answer}

or_else_message-bind :
    {A B : Type 0} (m : Result A) (text : String) (f : A → Result B) {b : B}
    → (or_else_message m text >>= f) ≡ ok b
    → (a : A) × (m ≡ ok a) × (f a ≡ ok b)
or_else_message-bind (ok a) text f h = (a, refl, h)
or_else_message-bind (err e) text f h = cc
or_else_message-bind panic text f h = cc

module _ ⦃lib : Services⦄ where
  -- An offer is opened exactly when the nonce has 12 bytes, the key decrypts to one of 32 bytes,
  -- and the payload decrypts under the two to well-formed UTF-8, which is the offer.
  pub open_offer_iff :
      (key iv payload offer : Bytes)
      → (open_offer key iv payload ≡ ok offer) ↔ (
          (length iv ≡ aes_iv_size)
          × ((k : Bytes) × (lib.home_decrypt key ≡ ok k)
              × (length k ≡ aes_key_size)
              × (lib.aes_decrypt k iv payload ≡ ok offer)
              × (is_utf8 offer ≡ true)))
  unfolding open_offer
  open_offer_iff key iv payload offer = ground arith

  -- What was encrypted on the way to an answer.
  pub seal_answer_inv :
      (peer : ℕ) (answer : Bytes) (rng : lib.Rng) (packet : HandshakePacket)
      → seal_answer peer answer rng ≡ ok packet
      → (key : Bytes) × (iv : Bytes) × (payload : Bytes) × (k : Bytes) × (ready : lib.Rng) × (packet
          ≡ home_answer_success peer key iv payload)
        × ((lib.try_fill_bytes aes_key_size rng).0 ≡ ok k)
        × ((lib.try_fill_bytes aes_iv_size (lib.try_fill_bytes aes_key_size rng).1).0 ≡ ok iv)
        × (lib.remote_encrypt ready k ≡ ok key)
        × (lib.aes_encrypt k iv answer ≡ ok payload)
  unfolding seal_answer
  seal_answer_inv peer answer rng packet h =
      let (k, filled, h1) = with_context-bind (lib.try_fill_bytes aes_key_size rng).0 _ _ h in
      let keyed = (lib.try_fill_bytes aes_key_size rng).1 in
      let (iv, iv_filled, h2) = with_context-bind (lib.try_fill_bytes aes_iv_size keyed).0 _ _ h1 in
      let (key, encrypted, h3) = with_context-bind (lib.remote_encrypt _ k) _ _ h2 in
      let (payload, sealed, h4) = or_else_message-bind (lib.aes_encrypt k iv answer) _ _ h3 in
      (key, iv, payload, k, _, sym (ok_inj h4), filled, iv_filled, encrypted, sealed)

  -- What is documented of the ciphers, for the remote's decryption, and of the random generator.
  pub record IsSealing (remote_decrypt : Bytes → Result Bytes) : Type 0 where
    pub key_opens :
        (rng : lib.Rng) (k b : Bytes) → lib.remote_encrypt rng k ≡ ok b → remote_decrypt b ≡ ok k
    pub payload_opens :
        (k n a b : Bytes) → lib.aes_encrypt k n a ≡ ok b → lib.aes_decrypt k n b ≡ ok a
    pub fills :
        (n : ℕ) (rng : lib.Rng) (b : Bytes) → (lib.try_fill_bytes n rng).0 ≡ ok b → length b ≡ n

  -- A sealed answer is for the given peer, with a key of 32 bytes and a nonce of 12, and the
  -- remote reads the answer from it with its private key, if the ciphers decrypt what they
  -- encrypted and the random generator fills what it is given.
  pub seal_answer-opens :
      {remote_decrypt : Bytes → Result Bytes} (law : IsSealing remote_decrypt) (peer : ℕ)
      (answer : Bytes) (rng : lib.Rng) (packet : HandshakePacket)
      → seal_answer peer answer rng ≡ ok packet
      → (key : Bytes) × (iv : Bytes) × (payload : Bytes) × (k : Bytes) × (packet
          ≡ home_answer_success peer key iv payload)
        × (remote_decrypt key ≡ ok k)
        × (length k ≡ aes_key_size)
        × (length iv ≡ aes_iv_size)
        × (lib.aes_decrypt k iv payload ≡ ok answer)
  seal_answer-opens law peer answer rng packet h =
      let (key, iv, payload, k, ready, made, filled, iv_filled, encrypted, sealed) =
        seal_answer_inv peer answer rng packet h in
      (
        key,
        iv,
        payload,
        k,
        made,
        law.key_opens ready k key encrypted,
        law.fills _ rng k filled,
        law.fills _ _ iv iv_filled,
        law.payload_opens k iv answer payload sealed,
      )
