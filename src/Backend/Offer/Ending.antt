-- ===== src/Backend/Offer/Ending.antt =====
-- hammer/hammeregg_backend/src/net.rs: what ends the loop over the offers.
use hammeregg.Prelude.{List, [], ◌∷◌, ◌≡◌, ◌⊎◌, inl, inr, Error, Result, ok, err, panic, arith}
use hammeregg.Core.Wire.{Message}
use hammeregg.Backend.Stream.{MonitorBounds}
use hammeregg.Backend.Host.{Host, Services, thread_ends}
use hammeregg.Backend.Offer.{
  Incident, received, server_ended, send_answer, answer_item, turn, serve, leave_or_go_on,
  handle_signalling_requests, idle,
}

-- The sending of some answer fails with the error.
abbrev pub SendingFails : Error → List Incident → Type 0
SendingFails e [] = ⊥
SendingFails e (server_ended c ∷ rest) = SendingFails e rest
SendingFails e (received item delivery ∷ rest) = (delivery ≡ err e) ⊎ SendingFails e rest

module _ ⦃lib : Services⦄ (bounds : MonitorBounds) where
  send_answer-err :
      (delivery : Result (Unit {0})) (x : Result Message × Host) (e : Error)
      → (send_answer delivery x).0 ≡ err e
      → delivery ≡ err e
  send_answer-err delivery (ok m, s) e h = h
  send_answer-err delivery (err x, s) e h = ground arith
  send_answer-err delivery (panic, s) e h = ground arith

  left-err :
      (more x : Result (Unit {0}) × Host) (e : Error)
      → (leave_or_go_on more x).0 ≡ err e
      → (x.0 ≡ err e) ⊎ (more.0 ≡ err e)
  left-err more (ok done, s) e h = inr h
  left-err more (err y, s) e h = inl h
  left-err more (panic, s) e h = inl h

  serve-err :
      (incidents : List Incident) (s : Host) (e : Error)
      → (serve bounds incidents s).0 ≡ err e
      → SendingFails e incidents
  unfolding serve turn
  serve-err [] s e h = ground arith
  serve-err (server_ended c ∷ rest) s e h = serve-err rest (thread_ends c s) e h
  serve-err (received item delivery ∷ rest) s e h =
      let rec = serve-err rest (turn bounds item delivery s).1 e in
      elim (left-err (serve bounds rest (turn bounds item delivery s).1)
        (turn bounds item delivery s) e h) [
          | inl left ↦ inl (send_answer-err delivery (answer_item bounds item s) e left)
          | inr later ↦ inr (rec later)
        ]

  -- If the loop over the offers ends with an error, that is the error of the sending of an answer.
  pub handle_signalling_requests-err :
      (incidents : List Incident) (e : Error)
      → (handle_signalling_requests bounds incidents).0 ≡ err e
      → SendingFails e incidents
  unfolding handle_signalling_requests
  handle_signalling_requests-err incidents e h = serve-err incidents idle e h
