-- ===== src/Backend/Offer.antt =====
-- hammer/hammeregg_backend/src/net.rs: the answers of a desktop to offers, and the loop over what
-- the signalling server sends.
pub mod Ending
pub mod Kept
pub mod Outcome
pub mod Orphan
pub mod Replies
use hammeregg.Prelude.{
  ℕ, String, List, [], ◌∷◌, message, Result, ok, err, panic, with_context, Option, none, some,
}
use hammeregg.Prelude.Stateful.{◌>>=◌, ◌>>◌, pure, lift, raise, gets, modify}
use hammeregg.Core.Packet.{Bytes, HandshakePacket, remote_offer, home_answer_failure}
use hammeregg.Core.Wire.{Message, serialize_packet, deserialize_packet}
use hammeregg.Backend.Stream.{MonitorBounds}
use hammeregg.Backend.Host.{
  PeerConnection, RemoteConnection, Host, Services, Work, drop_remote_connection, drop_remote,
  thread_ends,
}
use hammeregg.Backend.Pion.{on_failure, start_pion_server}
use hammeregg.Backend.Seal.{open_offer, seal_answer}

-- No remote, and nothing was called.
abbrev pub idle : Host
idle = record { remote = none; servers = []; next_notifier = 0; outbox = []; calls = [] }

-- `remote_ref.replace`
abbrev pub replace : RemoteConnection → Host → Host
replace new_remote s = drop_remote s.remote (record s { remote = some new_remote })

-- The result of a `try` block, with another result in the place of an error.
abbrev pub replace_error : {A : Type 0} → Result A → Result A × Host → Result A × Host
replace_error fallback (ok a, s) = (ok a, s)
replace_error fallback (err e, s) = (fallback, s)
replace_error fallback (panic, s) = (panic, s)

abbrev pub recover : {A : Type 0} → Work A → Result A → Work A
recover m fallback s = replace_error fallback (m s)

-- An item of the socket, with the outcome of the answer's sending if there is one, or the end of a
-- server's thread.
pub data Incident : Type 0 where
  received : Result Message → Result (Unit {0}) → Incident
  server_ended : PeerConnection → Incident

module _ ⦃lib : Services⦄ where
  -- `ChaCha20Rng::from_entropy`, which panics without entropy.
  abbrev pub new_rng : Work lib.Rng
  new_rng s = (lib.from_entropy s.calls, s)

  unfoldable pub write_answer : ℕ → Bytes → Work Message
  unfolding seal_answer
  write_answer peer answer = do
    rng ← new_rng
    packet ← lift (seal_answer peer answer rng)
    lift (serialize_packet ⦃c = lib.packets⦄ packet)

  -- The `try` block of `handle_remote_offer`.
  unfoldable pub accept_offer : ℕ → Bytes → Bytes → Bytes → MonitorBounds → Work Message
  unfolding start_pion_server write_answer open_offer
  accept_offer peer key iv payload monitor_bounds = do
    offer ← lift (open_offer key iv payload)
    started ← start_pion_server offer monitor_bounds
    m ← on_failure (drop_remote_connection started.0) (write_answer peer started.1)
    modify (replace started.0)
    pure m

  unfoldable pub handle_remote_offer : ℕ → Bytes → Bytes → Bytes → MonitorBounds → Work Message
  unfolding accept_offer
  handle_remote_offer peer key iv payload monitor_bounds =
      recover (accept_offer peer key iv payload monitor_bounds)
        (serialize_packet ⦃c = lib.packets⦄ (home_answer_failure peer "Signalling failed"))

  unfoldable pub handle_packet : MonitorBounds → HandshakePacket → Work Message
  unfolding handle_remote_offer
  handle_packet monitor_bounds (remote_offer peer key iv payload) =
      handle_remote_offer peer key iv payload monitor_bounds
  handle_packet monitor_bounds _ =
      raise (message "Signalling failed: did not get a RemoteOffer packet")

  -- The answer to one item, or an error that is only logged.
  unfoldable pub answer_item : MonitorBounds → Result Message → Work Message
  unfolding handle_packet
  answer_item monitor_bounds item = do
    m ← lift (with_context item "Signalling failed: could not read packet")
    packet ← lift (deserialize_packet ⦃c = lib.packets⦄ m)
    handle_packet monitor_bounds packet

  -- What becomes of an answer. Only a failed sending ends the loop.
  abbrev pub send_answer : Result (Unit {0}) → Result Message × Host → Result (Unit {0}) × Host
  send_answer delivery (ok m, s) = (delivery, record s { outbox = m ∷ s.outbox })
  send_answer delivery (err e, s) = (ok tt, s)
  send_answer delivery (panic, s) = (panic, s)

  -- One turn of the loop.
  unfoldable pub turn : MonitorBounds → Result Message → Result (Unit {0}) → Work (Unit {0})
  unfolding answer_item
  turn monitor_bounds item delivery s = send_answer delivery (answer_item monitor_bounds item s)

  -- At the end of the loop the remote is dropped.
  abbrev pub finish : Result (Unit {0}) → Work (Unit {0})
  finish r s = (r, drop_remote s.remote (record s { remote = none }))

  -- The operator `?` at the end of a turn.
  abbrev pub leave_or_go_on :
      Result (Unit {0}) × Host → Result (Unit {0}) × Host → Result (Unit {0}) × Host
  leave_or_go_on more (ok done, s) = more
  leave_or_go_on more (err e, s) = finish (err e) s
  leave_or_go_on more (panic, s) = finish panic s

  unfoldable pub serve : MonitorBounds → List Incident → Work (Unit {0})
  unfolding turn thread_ends
  serve monitor_bounds [] s = finish (ok tt) s
  serve monitor_bounds (server_ended connection ∷ rest) s =
      serve monitor_bounds rest (thread_ends connection s)
  serve monitor_bounds (received item delivery ∷ rest) s =
      let (r, t) = turn monitor_bounds item delivery s in
      let more = serve monitor_bounds rest t in leave_or_go_on more (r, t)

  -- The loop over the incidents, from the time when the connection is handed over.
  unfoldable pub handle_signalling_requests :
      MonitorBounds → List Incident → Result (Unit {0}) × Host
  unfolding serve
  handle_signalling_requests monitor_bounds incidents = serve monitor_bounds incidents idle
