-- ===== src/Backend/Offer/Replies.antt =====
-- hammer/hammeregg_backend/src/net.rs: panics in the cryptography of an offer.
pub mod Always
use hammeregg.Prelude.{
  ℕ, String, List, [], ◌∷◌, ◌≡◌, refl, sym, subst, arith, Result, ok, err, panic, ◌>>=◌, ◌>>◌,
  with_context, or_else_message, or_message, Option, some, none, length, numbered, message, Bool,
  true, false, with_context-eq-ok,
}
use hammeregg.Prelude.Utf8.{is_utf8, has_nul}
use hammeregg.Core.Packet.{Bytes, HandshakePacket, home_answer_failure}
use hammeregg.Core.Wire.{Message, serialize_packet}
use hammeregg.Backend.Stream.{MonitorBounds, Argument}
use hammeregg.Backend.Host.{Call, Host, Services}
use hammeregg.Backend.Seal.{
  aes_key_size, aes_iv_size, check_length, from_utf8, open_offer, seal_answer,
}

-- No panic.
abbrev pub IsCalm : {A : Type 0} → Result A → Type 0
IsCalm panic = ⊥
IsCalm _ = Unit

module _ {A : Type 0} where
  pub IsCalm-bind :
      {B : Type 0} (m : Result A) (f : A → Result B)
      → IsCalm m
      → ((a : A) → m ≡ ok a → IsCalm (f a))
      → IsCalm (m >>= f)
  IsCalm-bind (ok a) f calm rest = rest a refl
  IsCalm-bind (err e) f calm rest = tt
  IsCalm-bind panic f calm rest = calm

  pub IsCalm-with_context : (m : Result A) (text : String) → IsCalm m → IsCalm (with_context m text)
  IsCalm-with_context (ok a) text calm = tt
  IsCalm-with_context (err e) text calm = tt
  IsCalm-with_context panic text calm = calm

  IsCalm-or_else_message :
      (m : Result A) (text : String) → IsCalm m → IsCalm (or_else_message m text)
  IsCalm-or_else_message (ok a) text calm = tt
  IsCalm-or_else_message (err e) text calm = tt
  IsCalm-or_else_message panic text calm = calm

  pub IsCalm-or_message : (o : Option A) (text : String) → IsCalm (or_message o text)
  IsCalm-or_message (some a) text = tt
  IsCalm-or_message none text = tt

check_length-IsCalm : (text : String) (b : Bytes) (n : ℕ) → IsCalm (check_length text b n)
check_length-IsCalm text b n = ground arith

check_length-ok : (text : String) (b : Bytes) (n : ℕ) → check_length text b n ≡ ok tt → length b ≡ n
check_length-ok text b n h = ground arith

from_utf8-IsCalm : (b : Bytes) → IsCalm (from_utf8 b)
from_utf8-IsCalm b = ground arith

-- What is documented of the services: they report their errors. AES-GCM does so if the key and the
-- nonce have their sizes, and panics otherwise; the random generator fills what it is given.
pub record ReportsErrors (lib : Services) : Type 0 where
  pub to_vec : (p : HandshakePacket) → IsCalm (lib.packets.to_vec p)
  pub from_entropy : (calls : List Call) → IsCalm (lib.from_entropy calls)
  pub try_fill_bytes : (n : ℕ) (rng : lib.Rng) → IsCalm (lib.try_fill_bytes n rng).0
  pub fills :
      (n : ℕ) (rng : lib.Rng) (b : Bytes) → (lib.try_fill_bytes n rng).0 ≡ ok b → length b ≡ n
  pub home_decrypt : (b : Bytes) → IsCalm (lib.home_decrypt b)
  pub remote_encrypt : (rng : lib.Rng) (b : Bytes) → IsCalm (lib.remote_encrypt rng b)
  pub aes_encrypt :
      (k n b : Bytes)
      → length k ≡ aes_key_size
      → length n ≡ aes_iv_size
      → IsCalm (lib.aes_encrypt k n b)
  pub aes_decrypt :
      (k n b : Bytes)
      → length k ≡ aes_key_size
      → length n ≡ aes_iv_size
      → IsCalm (lib.aes_decrypt k n b)
  pub spawn_child : (calls : List Call) (args : List Argument) → IsCalm (lib.spawn_child calls args)

module _ ⦃lib : Services⦄ (calm : ReportsErrors lib) where
  pub open_offer-IsCalm : (key iv payload : Bytes) → IsCalm (open_offer key iv payload)
  unfolding open_offer
  open_offer-IsCalm key iv payload =
      IsCalm-bind (check_length _ iv aes_iv_size) _ (check_length-IsCalm _ iv aes_iv_size)
        λ done sized.
          IsCalm-bind (with_context (lib.home_decrypt key) _) _
            (IsCalm-with_context _ _ (calm.home_decrypt key))
            λ k got.
              IsCalm-bind (check_length _ k aes_key_size) _ (check_length-IsCalm _ k aes_key_size)
                λ done' fits.
                  IsCalm-bind (or_else_message (lib.aes_decrypt k iv payload) _) _
                    (IsCalm-or_else_message _ _ (
                      calm.aes_decrypt k iv payload (check_length-ok _ k aes_key_size fits)
                        (check_length-ok _ iv aes_iv_size sized)))
                    λ offer opened. IsCalm-with_context (from_utf8 offer) _ (from_utf8-IsCalm offer)

  pub seal_answer-IsCalm :
      (peer : ℕ) (answer : Bytes) (rng : lib.Rng) → IsCalm (seal_answer peer answer rng)
  unfolding seal_answer
  seal_answer-IsCalm peer answer rng =
      IsCalm-bind (with_context (lib.try_fill_bytes aes_key_size rng).0 _) _
        (IsCalm-with_context _ _ (calm.try_fill_bytes aes_key_size rng))
        λ k filled.
          IsCalm-bind (with_context (lib.try_fill_bytes aes_iv_size _).0 _) _
            (IsCalm-with_context _ _ (calm.try_fill_bytes aes_iv_size _))
            λ iv iv_filled.
              IsCalm-bind (with_context (lib.remote_encrypt _ k) _) _
                (IsCalm-with_context _ _ (calm.remote_encrypt _ k))
                λ key encrypted.
                  IsCalm-bind (or_else_message (lib.aes_encrypt k iv answer) _) _
                    (IsCalm-or_else_message _ _ (
                      calm.aes_encrypt k iv answer
                        (calm.fills _ _ k (with_context-eq-ok _ _ filled))
                        (calm.fills _ _ iv (with_context-eq-ok _ _ iv_filled))))
                    λ payload sealed. tt
