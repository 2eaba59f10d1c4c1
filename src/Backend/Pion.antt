-- ===== src/Backend/Pion.antt =====
-- hammer/hammeregg_backend/src/net.rs: `start_pion_server` and the thread that it starts. The two
-- wait for each other over channels, so until the thread streams their work is one sequence.
use hammeregg.Prelude.{
  ℕ, suc, String, [], ◌∷◌, ◌++◌, message, Result, ok, err, panic, with_context, or_message, Option,
  none, some, nat_eq, nat_keys,
}
use hammeregg.Prelude.{length, if◌then◌else◌}
use hammeregg.Prelude.HashMap
use hammeregg.Prelude.Stateful.{◌>>=◌, ◌>>◌, pure, lift, modify}
use hammeregg.Prelude.Utf8.{is_utf8, has_nul}
use hammeregg.Core.Packet.{Bytes}
use hammeregg.Backend.Stream.{MonitorBounds, ffmpeg_args}
use hammeregg.Backend.Host.{
  PeerConnection, RemoteConnection, PionServer, Host, Services, Work, ask, thread_ends,
  rtp2rtc_init, build_offer, signal_offer, rtp2rtc_start, spawn,
}

abbrev pub offer_err : String
offer_err = "RTP2RTC init failed: invalid offer!"

-- What the end of a scope drops when the scope is left by an error or a panic.
abbrev pub clean_up : {A : Type 0} → (Host → Host) → Result A × Host → Result A × Host
clean_up clean (ok a, s) = (ok a, s)
clean_up clean (err e, s) = (err e, clean s)
clean_up clean (panic, s) = (panic, clean s)

abbrev pub on_failure : {A : Type 0} → (Host → Host) → Work A → Work A
on_failure clean m s = clean_up clean (m s)

-- The string of a C string is copied if it is one.
abbrev pub read_answer : Bytes → Result Bytes
read_answer text = if is_utf8 text then ok text else err (message offer_err)

-- A pointer that is not null.
abbrev pub non_null : ℕ → String → Result (Unit {0})
non_null pointer text = if nat_eq pointer 0 then err (message text) else ok tt

-- `CString::new`
abbrev pub c_string : Bytes → Result Bytes
c_string text = if has_nul text then err (message offer_err) else ok (text ++ 0 ∷ [])

abbrev pub new_server : PeerConnection → ℕ → Host → Host
new_server connection stop_notifier s = record s {
  servers =
      HashMap.insert connection (record { stop_notifier = stop_notifier; answer_c = none })
        s.servers;
}

abbrev pub store_answer : PeerConnection → Bytes → Option PionServer → Host → Host
store_answer connection text (some server) s = record s {
  servers = HashMap.insert connection (record server { answer_c = some text }) s.servers;
}
store_answer connection text none s = s

-- The C string that the library returned is the thread's.
abbrev pub own_answer : PeerConnection → Bytes → Host → Host
own_answer connection text s = store_answer connection text (HashMap.get connection s.servers) s

-- `Arc::new(AtomicBool::new(false))`
abbrev pub new_notifier : Work ℕ
new_notifier s = (ok s.next_notifier, record s { next_notifier = suc s.next_notifier })

module _ ⦃lib : Services⦄ where
  -- The connection and the server that owns it.
  unfoldable pub init_connection : ℕ → Work PeerConnection
  init_connection stop_notifier = do
    connection ← ask lib.init rtp2rtc_init
    lift (non_null connection "RTP2RTC init failed: couldn't initialize connection!")
    modify (new_server connection stop_notifier)
    pure connection

  unfoldable pub parse_offer : Bytes → Work ℕ
  parse_offer offer = do
    c_offer ← lift (c_string offer)
    desc ←
        ask (λ calls. lib.offer calls c_offer (length c_offer))
          (λ _. build_offer c_offer (length c_offer))
    lift (non_null desc offer_err)
    pure desc

  unfoldable pub signal : PeerConnection → ℕ → Work Bytes
  signal connection desc = do
    answer_c ← ask (λ calls. lib.signal calls connection desc) (λ _. signal_offer connection desc)
    text ← lift (or_message answer_c offer_err)
    modify (own_answer connection text)
    lift (read_answer text)

  -- The thread up to its answer.
  unfoldable pub answer_offer : PeerConnection → Bytes → Work Bytes
  unfolding parse_offer signal
  answer_offer connection offer = do desc ← parse_offer offer; signal connection desc

  -- The server streams until its connection ends. What comes back is what the ports callback sends
  -- when it is called first, or nothing, if the function returns before that.
  abbrev pub start_pion_server_inner : PeerConnection → Work (Option (ℕ × ℕ))
  start_pion_server_inner connection =
      ask (λ calls. lib.ports calls connection) (λ _. rtp2rtc_start connection)

  unfoldable pub start : PeerConnection → Work (ℕ × ℕ)
  start connection = do
    ports ← start_pion_server_inner connection
    lift (or_message ports "Couldn't bind ports")

  unfoldable pub stream_video : MonitorBounds → ℕ → Work ℕ
  stream_video monitor_bounds port = do
    child ←
        ask (λ calls. lib.spawn_child calls (ffmpeg_args monitor_bounds port))
          (λ _. spawn (ffmpeg_args monitor_bounds port))
    lift (with_context child "Couldn't start ffmpeg!")

  unfoldable pub start_pion_server : Bytes → MonitorBounds → Work (RemoteConnection × Bytes)
  unfolding init_connection answer_offer start stream_video
  start_pion_server offer monitor_bounds = do
    stop_notifier ← new_notifier
    connection ← init_connection stop_notifier
    answer ← on_failure (thread_ends connection) (answer_offer connection offer)
    ports ← on_failure (thread_ends connection) (start connection)
    video_process ← stream_video monitor_bounds ports.0
    pure (
      record {
        connection = connection;
        stop_notifier = stop_notifier;
        video_process = video_process;
      },
      answer,
    )
