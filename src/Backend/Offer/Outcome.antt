-- ===== src/Backend/Offer/Outcome.antt =====
-- hammer/hammeregg_backend/src/net.rs: what an offer leads to.
use hammeregg.Prelude.{
  ℕ, ◌≡◌, refl, sym, ◌∙◌, arith, ok, err, panic, Result, some, Option, inl, inr, ◌⊎◌, ok_inj, ap,
  subst, nat_keys,
}
use hammeregg.Prelude.Stateful.{lift_inv}
use hammeregg.Prelude.Stateful.Triples.{After, Triple, Triple-bind, Triple-lift}
use hammeregg.Core.Packet.{Bytes, home_answer_success, home_answer_failure}
use hammeregg.Core.Wire.{Message, IsCodec, serialize_packet, deserialize_packet}
use hammeregg.Core.RoundTrip.{deserialize_packet-serialize_packet}
use hammeregg.Backend.Stream.{MonitorBounds}
use hammeregg.Backend.Host.{RemoteConnection, Host, Services, drop_remote_connection}
use hammeregg.Backend.Seal.{open_offer, seal_answer}
use hammeregg.Backend.Seal.Laws.{seal_answer_inv}
use hammeregg.Backend.Offer.{
  replace, write_answer, accept_offer, replace_error, handle_remote_offer,
}
use hammeregg.Backend.Handles.Servers.{drop_remote-remote}
use hammeregg.Backend.Handles.Initial.{on_failure-Triple}
use hammeregg.Backend.Offer.Kept.{Serves, start_pion_server-Keeps, drop-remote}

-- The message tells the peer that its offer was accepted.
abbrev pub IsAnswer : ⦃lib : Services⦄ → ℕ → Message → Type 0
IsAnswer ⦃lib⦄ peer m =
    (key : Bytes) × (iv : Bytes) × (payload : Bytes) × (deserialize_packet ⦃c = lib.packets⦄ m
      ≡ ok (home_answer_success peer key iv payload))

module _ ⦃lib : Services⦄ (law : IsCodec lib.packets) (bounds : MonitorBounds) (peer : ℕ) where
  write_answer-answers :
      (answer : Bytes) (s t : Host) (m : Message)
      → write_answer peer answer s ≡ (ok m, t)
      → IsAnswer peer m × (t ≡ s)
  unfolding write_answer
  write_answer-answers answer s t m h =
      let (rng, seeded, h0) = lift_inv (lib.from_entropy s.calls) _ s h in
      let (packet, sealed, h1) = lift_inv (seal_answer peer answer rng) _ s h0 in
      let (key, iv, payload, k, ready, made, filled, iv_filled, encrypted, sealed_with) =
        seal_answer_inv peer answer _ packet sealed in
      (
        (
          key,
          iv,
          payload,
          deserialize_packet-serialize_packet ⦃c = lib.packets⦄ packet m law (ap (λ x. x.0) h1)
              ∙ ap ok made,
        ),
        sym (ap (λ x. x.1) h1),
      )

  write_answer-same : (answer : Bytes) (s : Host) → (write_answer peer answer s).1 ≡ s
  unfolding write_answer
  write_answer-same answer s = ground arith

  write_answer-Triple :
      (answer : Bytes) (o : Option RemoteConnection)
      → Triple
          (Serves o)
          (write_answer peer answer)
          (λ m t. IsAnswer peer m × Serves o t)
          (Serves o)
  write_answer-Triple answer o = record {
    after = λ s h. go s h (write_answer peer answer s) (write_answer-same answer s) refl;
  }
    where
      go :
          (s : Host)
          → Serves o s
          → (x : Result Message × Host) → x.1 ≡ s
          → write_answer peer answer s ≡ x
          → After (λ m t. IsAnswer peer m × Serves o t) (Serves o) x
      go s h (ok m, t) kept e =
          let (answers, same) = write_answer-answers answer s t m e in
          (answers, subst (Serves o) (sym same) h)
      go s h (err x, t) kept e = ap (λ (y : Host). y.remote) kept ∙ h
      go s h (panic, t) kept e = ap (λ (y : Host). y.remote) kept ∙ h

  replace-Serves : (r : RemoteConnection) (s : Host) → Serves (some r) (replace r s)
  replace-Serves r s = drop-remote s.remote (record s { remote = some r })

  accept_offer-Triple :
      (key iv payload : Bytes) (o : Option RemoteConnection)
      → Triple
          (Serves o)
          (accept_offer peer key iv payload bounds)
          (λ m t. IsAnswer peer m × ((r : RemoteConnection) × Serves (some r) t))
          (Serves o)
  unfolding accept_offer
  accept_offer-Triple key iv payload o =
      Triple-bind _ _ (Triple-lift (open_offer key iv payload) (λ s h. h)) λ offer.
        Triple-bind _ _ (start_pion_server-Keeps offer bounds o) λ started.
          Triple-bind _ _
            (on_failure-Triple (drop_remote_connection started.0) _
              (λ s h. drop_remote-remote started.0 s ∙ h) (write_answer-Triple started.1 o))
            λ m. record {
              after = λ s (answers, h). (answers, (started.0, replace-Serves started.0 s));
            }

  -- When the desktop replies to an offer and the encoding reads back what it wrote, the reply
  -- decodes to an answer for the peer of the offer: either an accepting one, and the desktop then
  -- serves a remote, or the one that says that signalling failed, and the desktop then serves the
  -- remote that it served before.
  pub handle_remote_offer_outcome :
      (key iv payload : Bytes) (s t : Host) (m : Message)
      → handle_remote_offer peer key iv payload bounds s ≡ (ok m, t)
      → (IsAnswer peer m × ((r : RemoteConnection) × (t.remote ≡ some r)))
        ⊎ ((deserialize_packet ⦃c = lib.packets⦄ m
              ≡ ok (home_answer_failure peer "Signalling failed"))
            × (t.remote ≡ s.remote))
  unfolding handle_remote_offer
  handle_remote_offer_outcome key iv payload s t m h =
      go (accept_offer peer key iv payload bounds s)
        ((accept_offer-Triple key iv payload s.remote).after s refl) h
    where
      go :
          (x : Result Message × Host)
          → After
              (λ m t. IsAnswer peer m × ((r : RemoteConnection) × Serves (some r) t))
              (Serves s.remote)
              x
          → replace_error
              (serialize_packet ⦃c = lib.packets⦄ (home_answer_failure peer "Signalling failed"))
              x
            ≡ (ok m, t)
          → (IsAnswer peer m × ((r : RemoteConnection) × (t.remote ≡ some r)))
            ⊎ ((deserialize_packet ⦃c = lib.packets⦄ m
                  ≡ ok (home_answer_failure peer "Signalling failed"))
                × (t.remote ≡ s.remote))
      go (ok n, u) (answers, (r, served)) e = inl (
        subst (IsAnswer peer) (ok_inj (ap (λ y. y.0) e)) answers,
        (r, sym (ap (λ y. y.1.remote) e) ∙ served),
      )
      go (err x, u) served e = inr (
        deserialize_packet-serialize_packet ⦃c = lib.packets⦄ _ m law (ap (λ y. y.0) e),
        sym (ap (λ y. y.1.remote) e) ∙ served,
      )
      go (panic, u) served e = cc
