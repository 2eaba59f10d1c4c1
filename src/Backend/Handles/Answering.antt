-- ===== src/Backend/Handles/Answering.antt =====
-- hammer/hammeregg_backend/src/net.rs: the steps of `start_pion_server` after the first, and the
-- connection that its server owns.
use hammeregg.Prelude.{
  ℕ, List, ◌≡◌, sym, subst, inl, inr, refl, arith, true, nat_eq, some, none, nat_keys, Option,
  Bool-cases, or_message, with_context,
}
use hammeregg.Prelude.HashMap
use hammeregg.Prelude.HashMap.{get-insert}
use hammeregg.Prelude.Stateful.{lift}
use hammeregg.Prelude.Stateful.Triples.{
  Triple, Triple-bind, Triple-lift, Triple-modify, Triple-pure,
}
use hammeregg.Core.Packet.{Bytes}
use hammeregg.Backend.Stream.{MonitorBounds, Argument}
use hammeregg.Backend.Host.{
  PeerConnection, RemoteConnection, PionServer, Host, Services, Call, call, ask, signal_offer,
  rtp2rtc_start, build_offer, spawn,
}
use hammeregg.Backend.Pion.{
  parse_offer, signal, answer_offer, start, stream_video, own_answer, store_answer, c_string,
  non_null, read_answer, offer_err,
}
use hammeregg.Backend.Handles.{IsSound, IsHeld, is_live}
use hammeregg.Backend.Handles.Initial.{IsOwned, call-IsSound}

module _ ⦃lib : Services⦄ (c : PeerConnection) (flag : ℕ) where
  -- A call that neither makes nor frees a connection.
  abbrev IsQuiet : Call → Type 0
  IsQuiet k = (s : Host) → IsSound s → is_live c s.calls ≡ true → IsSound (call k s)

  pub owned-live : (s : Host) → IsOwned c flag s → is_live c s.calls ≡ true
  owned-live s (sound, (v, got, same)) = sound.live c v got

  ask-Triple :
      {A : Type 0} {e : Host → Type 0} (answer : List Call → A) (k : Call)
      → IsQuiet k
      → Triple (IsOwned c flag) (ask answer (λ _. k)) (λ a. IsOwned c flag) e
  ask-Triple answer k quiet = record {
    after = λ s (sound, owned). (quiet s sound (owned-live s (sound, owned)), owned);
  }

  build_offer-IsQuiet : (text : Bytes) (n : ℕ) → IsQuiet (build_offer text n)
  build_offer-IsQuiet text n s sound live =
      call-IsSound (build_offer text n) s (λ d. refl) (λ m. refl) sound.safe sound

  signal_offer-IsQuiet : (desc : ℕ) → IsQuiet (signal_offer c desc)
  signal_offer-IsQuiet desc s sound live =
      call-IsSound (signal_offer c desc) s (λ d. refl) (λ m. refl) (rw (live, sound.safe)) sound

  start-IsQuiet : IsQuiet (rtp2rtc_start c)
  start-IsQuiet s sound live =
      call-IsSound (rtp2rtc_start c) s (λ d. refl) (λ m. refl) (rw (live, sound.safe)) sound

  spawn-IsQuiet : (args : List Argument) → IsQuiet (spawn args)
  spawn-IsQuiet args s sound live =
      call-IsSound (spawn args) s (λ d. refl) (λ m. refl) sound.safe sound

  parse_offer-Triple :
      (offer : Bytes)
      → Triple (IsOwned c flag) (parse_offer offer) (λ desc. IsOwned c flag) (IsOwned c flag)
  unfolding parse_offer
  parse_offer-Triple offer =
      Triple-bind (lift (c_string offer)) _ (Triple-lift (c_string offer) (λ s h. h)) λ c_offer.
        Triple-bind _ _ (ask-Triple _ _ (build_offer-IsQuiet c_offer _)) λ desc.
          Triple-bind _ _ (Triple-lift (non_null desc offer_err) (λ s h. h))
            λ done. Triple-pure desc (λ s h. h)

  stored-live :
      (text : Bytes) (s : Host) (v : PionServer) (d : ℕ) (w : PionServer)
      → is_live c s.calls ≡ true
      → ((w : PionServer) → HashMap.get d s.servers ≡ some w → is_live d s.calls ≡ true)
      → HashMap.get d (HashMap.insert c (record v { answer_c = some text }) s.servers) ≡ some w
      → is_live d s.calls ≡ true
  stored-live text s v d w here others h =
      ground (arith, others w, get-insert c d (record v { answer_c = some text }) s.servers)

  stored-IsHeld :
      (text : Bytes) (o : Option RemoteConnection) (s : Host) (v : PionServer)
      → HashMap.get c s.servers ≡ some v
      → IsHeld o s
      → IsHeld o (store_answer c text (some v) s)
  stored-IsHeld text none s v got held = tt
  stored-IsHeld text (some r) s v got (inl known) = inl known
  stored-IsHeld text (some r) s v got (inr (w, found, same)) =
      elim (Bool-cases (nat_eq c r.connection)) [
        | inl here ↦ inr (
          record v { answer_c = some text },
          ground (arith, get-insert c r.connection (record v { answer_c = some text }) s.servers),
          ground arith,
        )
        | inr elsewhere ↦ inr (
          w,
          ground (arith, get-insert c r.connection (record v { answer_c = some text }) s.servers),
          same,
        )
      ]

  store_answer-IsOwned :
      (text : Bytes) (s : Host) → IsOwned c flag s → IsOwned c flag (own_answer c text s)
  store_answer-IsOwned text s (sound, (v, got, same)) =
      subst (λ o. IsOwned c flag (store_answer c text o s)) (sym got)
        (
          record {
            safe = sound.safe;
            live = λ d w h. stored-live text s v d w (sound.live c v got) (sound.live d) h;
            held = stored-IsHeld text s.remote s v got sound.held;
          },
          (
            record v { answer_c = some text },
            ground (arith, get-insert c c (record v { answer_c = some text }) s.servers),
            same,
          ),
        )

  signal-Triple :
      (desc : ℕ) → Triple (IsOwned c flag) (signal c desc) (λ text. IsOwned c flag) (IsOwned c flag)
  unfolding signal
  signal-Triple desc = Triple-bind _ _ (ask-Triple _ _ (signal_offer-IsQuiet desc)) λ answer_c.
      Triple-bind _ _ (Triple-lift (or_message answer_c offer_err) (λ s h. h)) λ text.
        Triple-bind _ _ (Triple-modify _ (store_answer-IsOwned text))
          λ done. Triple-lift (read_answer text) (λ s h. h)

  pub answer_offer-Triple :
      (offer : Bytes)
      → Triple (IsOwned c flag) (answer_offer c offer) (λ text. IsOwned c flag) (IsOwned c flag)
  unfolding answer_offer
  answer_offer-Triple offer =
      Triple-bind (parse_offer offer) _ (parse_offer-Triple offer) signal-Triple

  pub start-Triple : Triple (IsOwned c flag) (start c) (λ ports. IsOwned c flag) (IsOwned c flag)
  unfolding start
  start-Triple =
      Triple-bind _ _ (ask-Triple _ _ start-IsQuiet)
        λ ports. Triple-lift (or_message ports "Couldn't bind ports") (λ s h. h)

  pub stream_video-Triple :
      (bounds : MonitorBounds) (port : ℕ)
      → Triple (IsOwned c flag) (stream_video bounds port) (λ child. IsOwned c flag) IsSound
  unfolding stream_video
  stream_video-Triple bounds port =
      Triple-bind _ _ (ask-Triple _ _ (spawn-IsQuiet _))
        λ child. Triple-lift (with_context child "Couldn't start ffmpeg!") (λ s h. h.0)
