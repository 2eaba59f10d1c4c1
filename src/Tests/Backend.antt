-- ===== src/Tests/Backend.antt =====
-- hammer/hammeregg_backend at work: a remote's offer and the desktop's reply.
use hammeregg.Prelude.{◌≡◌, ◌↔◌, ◌⊎◌, refl, List, [], ◌∷◌, true, none, some, message, ok, err}
use hammeregg.Core.Packet.{Bytes, home_answer_failure, home_answer_success}
use hammeregg.Core.Wire.{Message, binary, other, serialize_packet, deserialize_packet}
use hammeregg.Prelude.Int.{pos}
use hammeregg.Prelude.{length}
use hammeregg.Prelude.HashMap
use hammeregg.Prelude.Utf8.{is_utf8, has_nul}
use hammeregg.Core.Packet.{HandshakePacket}
use hammeregg.Backend.Stream.{MonitorBounds, ffmpeg_args}
use hammeregg.Backend.Host.{
  Host, RemoteConnection, Services, Call, signal_offer, build_offer, rtp2rtc_init, rtp2rtc_start,
  spawn, thread_ends, drop_server,
}
use hammeregg.Backend.Seal.{open_offer, seal_answer}
use hammeregg.Backend.Seal.Laws.{open_offer_iff, seal_answer-opens}
use hammeregg.Backend.Pion.{
  init_connection, start_pion_server, answer_offer, parse_offer, signal, start, stream_video,
}
use hammeregg.Backend.Offer.{
  Incident, received, server_ended, idle, handle_remote_offer, handle_signalling_requests,
  accept_offer, write_answer, serve, turn, answer_item, handle_packet,
}
use hammeregg.Backend.Offer.Outcome.{IsAnswer, handle_remote_offer_outcome}
use hammeregg.Backend.Offer.Replies.Always.{handle_remote_offer_replies}
use hammeregg.Backend.Offer.Orphan.{failed_ffmpeg_leaves_server}
use hammeregg.Backend.Handles.{is_live, Owns}
use hammeregg.Backend.Handles.Starting.{idle-IsSound}
use hammeregg.Tests.Encoding.{packet_codec-IsCodec, put₃}
use hammeregg.Tests.Services.{
  repeat, seal, unseal, services, services-IsFresh, services-IsSealing, services-ReportsErrors,
}

abbrev pub monitor : MonitorBounds
monitor = record { x = pos 1920; y = pos 0; w = 1280; h = 720 }

-- The text "CD", sealed by the remote.
abbrev remote_key : Bytes
remote_key = repeat 32 9

abbrev pub sealed_key : Bytes
sealed_key = seal (1 ∷ 2 ∷ []) remote_key

abbrev pub nonce : Bytes
nonce = repeat 12 8

abbrev pub sealed_offer : Bytes
sealed_offer = seal remote_key (67 ∷ 68 ∷ [])

abbrev pub working : Services
working = services (ok 3)

abbrev failing : Services
failing = services (err (message "no ffmpeg"))

abbrev reply : Message
reply = binary (
    7
    ∷ 5
    ∷ put₃ (seal (3 ∷ 4 ∷ []) (repeat 32 5)) (repeat 12 6) (seal (repeat 32 5) (65 ∷ 66 ∷ [])))

abbrev answering : List Call
answering = signal_offer 1 1 ∷ build_offer (67 ∷ 68 ∷ 0 ∷ []) 3 ∷ rtp2rtc_init 1 ∷ []

abbrev with_server : List Call → Host
with_server calls = record idle {
  servers = (1, record { stop_notifier = 0; answer_c = some (65 ∷ 66 ∷ []) }) ∷ [];
  next_notifier = 1;
  calls = calls;
}

abbrev streaming : Host
streaming = with_server (rtp2rtc_start 1 ∷ answering)

abbrev connected : Host
connected = record (with_server (spawn (ffmpeg_args monitor 5000) ∷ rtp2rtc_start 1 ∷ answering)) {
  remote = some (record { connection = 1; stop_notifier = 0; video_process = 3 });
}

offer_is_answered :
    handle_remote_offer ⦃lib = working⦄ 5 sealed_key nonce sealed_offer monitor idle
    ≡ (ok reply, connected)
unfolding handle_remote_offer accept_offer write_answer open_offer seal_answer start_pion_server
    init_connection answer_offer parse_offer signal start stream_video serialize_packet ffmpeg_args
    is_utf8 has_nul HashMap.get HashMap.insert HashMap.remove
offer_is_answered = refl

handle_remote_offer_outcome_example :
    (IsAnswer ⦃lib = working⦄ 5 reply × ((r : RemoteConnection) × (connected.remote ≡ some r)))
    ⊎ ((deserialize_packet ⦃c = working.packets⦄ reply
          ≡ ok (home_answer_failure 5 "Signalling failed"))
        × (connected.remote ≡ idle.remote))
handle_remote_offer_outcome_example =
    handle_remote_offer_outcome ⦃lib = working⦄ packet_codec-IsCodec monitor 5 sealed_key nonce
      sealed_offer idle connected reply offer_is_answered

-- An offer, the same again, a ping, the end of both servers, and an offer whose answer is lost.
abbrev offer_message : Message
offer_message = binary (6 ∷ 5 ∷ put₃ sealed_key nonce sealed_offer)

abbrev incidents : List Incident
incidents =
    received (ok offer_message) (ok tt)
    ∷ received (ok offer_message) (ok tt)
    ∷ received (ok (other "ping")) (ok tt)
    ∷ server_ended 1
    ∷ server_ended 2
    ∷ received (ok offer_message) (err (message "closed"))
    ∷ []

last_sending_fails :
    (handle_signalling_requests ⦃lib = working⦄ monitor incidents).0 ≡ err (message "closed")
unfolding handle_signalling_requests serve turn thread_ends drop_server answer_item handle_packet
    handle_remote_offer accept_offer write_answer open_offer seal_answer start_pion_server
    init_connection answer_offer parse_offer signal start stream_video serialize_packet
    deserialize_packet ffmpeg_args is_utf8 has_nul HashMap.get HashMap.insert HashMap.remove
last_sending_fails = refl

open_offer_iff_example :
    (open_offer ⦃lib = working⦄ sealed_key nonce sealed_offer ≡ ok (67 ∷ 68 ∷ [])) ↔ (
      (length nonce ≡ 12)
      × ((k : Bytes) × (working.home_decrypt sealed_key ≡ ok k)
          × (length k ≡ 32)
          × (working.aes_decrypt k nonce sealed_offer ≡ ok (67 ∷ 68 ∷ []))
          × (is_utf8 (67 ∷ 68 ∷ []) ≡ true)))
open_offer_iff_example = open_offer_iff ⦃lib = working⦄ sealed_key nonce sealed_offer (67 ∷ 68 ∷ [])

abbrev sealed_answer : HandshakePacket
sealed_answer =
    home_answer_success 5 (seal (3 ∷ 4 ∷ []) (repeat 32 5)) (repeat 12 6)
      (seal (repeat 32 5) (65 ∷ 66 ∷ []))

seal_answer-opens_example :
    (key : Bytes) × (iv : Bytes) × (payload : Bytes) × (k : Bytes) × (sealed_answer
      ≡ home_answer_success 5 key iv payload)
    × (unseal (3 ∷ 4 ∷ []) key ≡ ok k)
    × (length k ≡ 32)
    × (length iv ≡ 12)
    × (working.aes_decrypt k iv payload ≡ ok (65 ∷ 66 ∷ []))
seal_answer-opens_example =
    seal_answer-opens ⦃lib = working⦄ (services-IsSealing (ok 3)) 5 (65 ∷ 66 ∷ []) 5 sealed_answer
      (unfold seal_answer in refl)

abbrev failure_reply : Message
failure_reply = binary (8 ∷ 5 ∷ 3 ∷ [])

abbrev orphaned : Host
orphaned = with_server (spawn (ffmpeg_args monitor 5000) ∷ rtp2rtc_start 1 ∷ answering)

failed_ffmpeg_leaves_server_example :
    (handle_remote_offer ⦃lib = failing⦄ 5 sealed_key nonce sealed_offer monitor idle
      ≡ (ok failure_reply, orphaned))
    × Owns 1 0 orphaned
    × (is_live 1 orphaned.calls ≡ true)
    × (orphaned.remote ≡ idle.remote)
unfolding open_offer init_connection answer_offer parse_offer signal start serialize_packet is_utf8
    has_nul HashMap.get HashMap.insert HashMap.remove
failed_ffmpeg_leaves_server_example =
    failed_ffmpeg_leaves_server ⦃lib = failing⦄ monitor 5 sealed_key nonce sealed_offer
      (67 ∷ 68 ∷ []) idle
      (record (with_server (rtp2rtc_init 1 ∷ [])) {
        servers = (1, record { stop_notifier = 0; answer_c = none }) ∷ [];
      })
      (with_server answering) streaming 1 (65 ∷ 66 ∷ []) (5000, 5001) (message "no ffmpeg")
      failure_reply refl refl refl refl refl refl (services-IsFresh (err (message "no ffmpeg")))
      idle-IsSound

-- A remote that sends nothing of use is told so.
handle_remote_offer_replies_example :
    (m : Message) × (t : Host) × (handle_remote_offer ⦃lib = failing⦄ 5 [] nonce sealed_offer
        monitor idle
      ≡ (ok m, t))
unfolding serialize_packet
handle_remote_offer_replies_example =
    handle_remote_offer_replies ⦃lib = failing⦄
      (services-ReportsErrors (err (message "no ffmpeg")) tt) 5 [] nonce sealed_offer monitor idle
      failure_reply refl
