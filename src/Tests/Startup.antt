-- ===== src/Tests/Startup.antt =====
-- hammer/hammeregg_backend/src and hammer/hammeregg_rooster/src/main.rs: a desktop and the server it
-- connects to, on small instances of what is foreign.
use hammeregg.Prelude.{
  ℕ, List, [], ◌∷◌, true, false, ◌≡◌, ◌↔◌, refl, none, some, Result, ok, err, message, string_keys,
}
use hammeregg.Prelude.HashMap
use hammeregg.Prelude.Int.{pos}
use hammeregg.Prelude.Text.{is_blank}
use hammeregg.Core.Packet.{Bytes}
use hammeregg.Core.Wire.{Message, binary, serialize_packet}
use hammeregg.Rooster.Home.{taken, free}
use hammeregg.Rooster.Server.{handshaking, home_greeting, received, connection_step}
use hammeregg.Backend.Stream.{MonitorBounds}
use hammeregg.Backend.Connect.{Roots, Transport, init_signalling_connection}
use hammeregg.Backend.Connect.Success.{Trusts, IsAccepted, init_signalling_connection_iff}
use hammeregg.Backend.Startup.{desktop_starts, taken_name_is_shown}
use hammeregg.Backend.Ui.Platform
use hammeregg.Backend.Ui.Platform.{
  Frame, Poll, waiting, Background, RemotePassword, connect, generate_keys, serve, report_panic,
}
use hammeregg.Backend.Ui.Screen.{SetupScreen, KeygenScreen, setup, keygen, running, next}
use hammeregg.Backend.Ui.Setup
use hammeregg.Backend.Ui.Running
use hammeregg.Backend.Ui.Key
use hammeregg.Backend.Ui.Key.{gen_home_and_remote_keys}
use hammeregg.Backend.Ui.App.{update_screen}
use hammeregg.Tests.Encoding.{small_env, packet_codec-IsCodec, init_codec-IsCodec}
use hammeregg.Tests.Desktop.{empty_map, home_map, home_hello, home_says_hello, alone}
use hammeregg.Tests.Ui.{
  small_platform, click, form, typed, nothing, default_addr, typed_parsed, typed-IsFilled,
}
use hammeregg.Tests.Sessions.{look, look-IsSound}

abbrev small_roots : Roots
small_roots = record {
  RootCertStore = List Bytes;
  empty = [];
  add_server_trust_anchors = λ store. store;
  add = λ cert store. ok (cert ∷ store);
  open_file = λ path. err (message "no file");
  certs = λ file. ok (file ∷ []);
}

-- A server that answers with this message.
abbrev answering : Message → Transport ⦃roots = small_roots⦄ ℕ
answering answer = record {
  TcpStream = ℕ;
  connect = λ addr. ok 1;
  client_async_tls = λ url stream store sni. ok 7;
  send = λ wss m. ok tt;
  next = λ wss. some (ok answer);
}

abbrev accepts : Message
accepts = binary (1 ∷ [])

abbrev refuses : Message
refuses = binary (2 ∷ 1 ∷ [])

init_signalling_connection_iff_example :
    (init_signalling_connection ⦃roots = small_roots⦄ ⦃transport = answering accepts⦄
        ⦃inits = small_env.init_packets⦄ ⦃packets = small_env.packets⦄ "home" default_addr none
      ≡ ok 7)
    ↔ ((root_store : List Bytes) × Trusts ⦃roots = small_roots⦄ none root_store
        × (stream : ℕ) × ◌≡◌ {A = Result ℕ} (ok 1) (ok stream)
        × ◌≡◌ {A = Result ℕ} (ok 7) (ok 7)
        × IsAccepted ⦃roots = small_roots⦄ ⦃transport = answering accepts⦄
            ⦃inits = small_env.init_packets⦄ ⦃packets = small_env.packets⦄ "home" 7)
init_signalling_connection_iff_example =
    init_signalling_connection_iff ⦃roots = small_roots⦄ ⦃transport = answering accepts⦄
      ⦃inits = small_env.init_packets⦄ ⦃packets = small_env.packets⦄ "home" default_addr none 7

-- The frame that looks for the connection, after the task has ended with this result.
abbrev looks_at : Message → Frame ⦃platform = small_platform⦄
looks_at answer =
    look (λ enabled. false)
      (Platform.sent (
        init_signalling_connection ⦃roots = small_roots⦄ ⦃transport = answering answer⦄
          ⦃inits = small_env.init_packets⦄ ⦃packets = small_env.packets⦄ "home" default_addr none))
      waiting none

abbrev generated : Frame ⦃platform = small_platform⦄
generated =
    look (λ enabled. false) waiting
      (Platform.thread_sent (gen_home_and_remote_keys ⦃platform = small_platform⦄ 5 6)) none

abbrev pending : SetupScreen
pending = record typed { signalling_connection_init = some 0 }

abbrev begun : Background ⦃platform = small_platform⦄
begun = record { spawned = connect 0 "home" default_addr none ∷ []; files = [] }

abbrev keys_screen : KeygenScreen ⦃platform = small_platform⦄
keys_screen = record {
  work_thread = 0;
  desktop_name = "home";
  signalling_server_addr = "127.0.0.1";
  extra_ca = none;
  wss = 7;
  error_msg = none;
  password_rx = 1;
}

abbrev keys_begun : Background ⦃platform = small_platform⦄
keys_begun = record { spawned = generate_keys ∷ begun.spawned; files = [] }

abbrev screen_bounds : MonitorBounds
screen_bounds = record { x = pos 0; y = pos 0; w = 1280; h = 720 }

desktop_starts_example :
    (connection_step ⦃env = small_env⦄ handshaking (received (ok home_hello)) empty_map
      ≡ (home_greeting "home" (free accepts), empty_map))
    × (update_screen ⦃platform = small_platform⦄ click (setup form) nothing
        ≡ (ok (next (setup pending) false), begun))
    × (update_screen ⦃platform = small_platform⦄ (looks_at accepts) (setup pending) begun
        ≡ (ok (next (keygen keys_screen) true), keys_begun))
    × (update_screen ⦃platform = small_platform⦄ generated (keygen keys_screen) keys_begun ≡ (
      ok (
          next
            (running (record {
              work_thread = 0;
              connected_label = Running.connected_label "home";
              password =
                  some (record { home_public_key = "public"; remote_private_key = "private" });
              error_msg = none;
            }))
            true),
      record {
        spawned = report_panic 0 2 ∷ serve 0 7 5 6 screen_bounds ∷ generate_keys ∷ begun.spawned;
        files = [];
      },
    ))
unfolding Setup.edit Setup.kept_ca_field is_blank
desktop_starts_example =
    desktop_starts ⦃platform = small_platform⦄ ⦃roots = small_roots⦄ ⦃transport = answering accepts⦄
      ⦃env = small_env⦄ packet_codec-IsCodec init_codec-IsCodec form click (looks_at accepts)
      nothing default_addr empty_map home_hello accepts [] 1 7 (look-IsSound _ _ _ _) refl refl
      typed-IsFilled typed_parsed refl refl refl home_says_hello refl refl refl generated 5 6 5 6
      screen_bounds (record { home_public_key = "public"; remote_private_key = "private" })
      (unfold HashMap.get in refl) (unfold serialize_packet in refl) refl
      (unfold gen_home_and_remote_keys in refl)
      (unfold Running.monitor_bounds Running.logical_bounds in refl)
      (unfold Key.remote_password in refl)

taken_name_is_shown_example :
    (connection_step ⦃env = small_env⦄ handshaking (received (ok home_hello)) home_map
      ≡ (home_greeting "home" (taken refuses), home_map))
    × (update_screen ⦃platform = small_platform⦄ click (setup form) nothing
        ≡ (ok (next (setup pending) false), begun))
    × (update_screen ⦃platform = small_platform⦄ (looks_at refuses) (setup pending) begun ≡ (
      ok (
          next
            (setup (record typed {
              error_msg = some "Error: failed";
              signalling_connection_init = none;
            }))
            false),
      begun,
    ))
unfolding Setup.edit Setup.kept_ca_field is_blank
taken_name_is_shown_example =
    taken_name_is_shown ⦃platform = small_platform⦄ ⦃roots = small_roots⦄
      ⦃transport = answering refuses⦄ ⦃env = small_env⦄ packet_codec-IsCodec init_codec-IsCodec form
      click (looks_at refuses) nothing default_addr home_map home_hello refuses [] 1 7
      (look-IsSound _ _ _ _) refl refl typed-IsFilled typed_parsed refl refl refl home_says_hello
      refl refl refl alone (unfold HashMap.get in refl) (unfold serialize_packet in refl)
