-- ===== src/Tests/Services.antt =====
-- Services in the place of the cryptography, the Pion library and the operating system: what the
-- hypotheses about foreign code ask for can be had.
use hammeregg.Prelude.{
  Option, none, some, err, ℕ, zero, suc, ◌≡◌, ◌<◌, ◌+◌, refl, arith, List, [], ◌∷◌, true, Result,
  ok, message, length,
}
use hammeregg.Core.Packet.{
  Bytes, HandshakePacket, accepted, refused, home_init, home_init_response, remote_init,
  remote_init_response, remote_offer, home_answer_success, home_answer_failure,
}
use hammeregg.Backend.Host.{Call, rtp2rtc_init, Services, PeerConnection}
use hammeregg.Backend.Handles.{is_live, IsFresh}
use hammeregg.Backend.Seal.Laws.{IsSealing}
use hammeregg.Backend.Offer.Replies.{IsCalm, ReportsErrors}
use hammeregg.Tests.Encoding.{packet_codec, text_code, write_text}

abbrev pub repeat : ℕ → ℕ → Bytes
repeat zero b = []
repeat (suc n) b = b ∷ repeat n b

length-repeat : (n b : ℕ) → length (repeat n b) ≡ n
length-repeat zero b = refl
length-repeat (suc n) b = rw (length-repeat n b)

-- A number above every connection so far.
abbrev next_handle : List Call → PeerConnection
next_handle [] = 1
next_handle (rtp2rtc_init c ∷ calls) = let n = next_handle calls in suc (c + n)
next_handle (_ ∷ calls) = next_handle calls

live-next_handle : (calls : List Call) (c : ℕ) → is_live c calls ≡ true → c < next_handle calls
live-next_handle [] c h = ground arith
live-next_handle (k ∷ calls) c h = ground (arith, live-next_handle calls c)

-- What is sealed with a key begins with the key.
abbrev pub seal : Bytes → Bytes → Bytes
seal [] text = text
seal (k ∷ key) text = k ∷ seal key text

abbrev pub unseal : Bytes → Bytes → Result Bytes
unseal [] text = ok text
unseal (k ∷ key) (b ∷ text) = unseal key text
unseal (k ∷ key) [] = err (message "too short")

unseal-seal : (key text : Bytes) → unseal key (seal key text) ≡ ok text
unseal-seal [] text = refl
unseal-seal (k ∷ key) text = unseal-seal key text

-- The services, with the outcome of starting a process. The remote's answer is the text "AB".
abbrev pub services : Result ℕ → Services
services child = record {
  packets = packet_codec;
  Rng = ℕ;
  from_entropy = λ calls. ok (length calls);
  try_fill_bytes = λ n rng. (ok (repeat n rng), suc rng);
  home_decrypt = unseal (1 ∷ 2 ∷ []);
  remote_encrypt = λ rng text. ok (seal (3 ∷ 4 ∷ []) text);
  aes_encrypt = λ key nonce text. ok (seal key text);
  aes_decrypt = λ key nonce text. unseal key text;
  init = next_handle;
  offer = λ calls text n. 1;
  signal = λ calls connection desc. some (65 ∷ 66 ∷ []);
  ports = λ calls connection. some (5000, 5001);
  spawn_child = λ calls args. child;
}

pub services-IsFresh : (child : Result ℕ) → IsFresh (services child)
services-IsFresh child calls c h = omega (arith, live-next_handle calls c h)

ok_inj' : {a b : Bytes} → ok a ≡ ok b → b ≡ a
ok_inj' h = ground arith

pub services-IsSealing : (child : Result ℕ) → IsSealing ⦃lib = services child⦄ (unseal (3 ∷ 4 ∷ []))
services-IsSealing child = record {
  key_opens = λ rng k b h. rw (ok_inj' h);
  payload_opens = λ k n a b h. rw (ok_inj' h, unseal-seal k a);
  fills = λ n rng b h. rw (ok_inj' h, length-repeat n rng);
}

unseal-IsCalm : (key text : Bytes) → IsCalm (unseal key text)
unseal-IsCalm [] text = tt
unseal-IsCalm (k ∷ key) [] = tt
unseal-IsCalm (k ∷ key) (b ∷ text) = unseal-IsCalm key text

write_text-IsCalm : (tag : ℕ) (fields : Bytes) (o : Option ℕ) → IsCalm (write_text tag fields o)
write_text-IsCalm tag fields (some n) = tt
write_text-IsCalm tag fields none = tt

write_packet-IsCalm : (p : HandshakePacket) → IsCalm (packet_codec.to_vec p)
write_packet-IsCalm (home_init t) = write_text-IsCalm 0 [] (text_code t)
write_packet-IsCalm (home_init_response accepted) = tt
write_packet-IsCalm (home_init_response (refused e)) = write_text-IsCalm 2 [] (text_code e.text)
write_packet-IsCalm (remote_init t) = write_text-IsCalm 3 [] (text_code t)
write_packet-IsCalm (remote_init_response accepted) = tt
write_packet-IsCalm (remote_init_response (refused e)) = write_text-IsCalm 5 [] (text_code e.text)
write_packet-IsCalm (remote_offer peer key iv payload) = tt
write_packet-IsCalm (home_answer_success peer key iv payload) = tt
write_packet-IsCalm (home_answer_failure peer e) = write_text-IsCalm 8 (peer ∷ []) (text_code e)

pub services-ReportsErrors : (child : Result ℕ) → IsCalm child → ReportsErrors (services child)
services-ReportsErrors child calm = record {
  to_vec = write_packet-IsCalm;
  from_entropy = λ calls. tt;
  try_fill_bytes = λ n rng. tt;
  fills = λ n rng b h. rw (ok_inj' h, length-repeat n rng);
  home_decrypt = unseal-IsCalm (1 ∷ 2 ∷ []);
  remote_encrypt = λ rng b. tt;
  aes_encrypt = λ k n b sized fits. tt;
  aes_decrypt = λ k n b sized fits. unseal-IsCalm k b;
  spawn_child = λ calls args. calm;
}
