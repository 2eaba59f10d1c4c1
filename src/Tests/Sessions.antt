-- ===== src/Tests/Sessions.antt =====
-- hammer/hammeregg_backend/src/ui: whole sessions, and the way to the signalling server, on small
-- instances of what is foreign.
use hammeregg.Prelude.{
  ℕ, String, List, [], ◌∷◌, Bool, true, false, not, ◌≡◌, refl, Option, none, some, ok, Error, ◌⊎◌,
  inr, All, string_keys,
}
use hammeregg.Prelude.Int.{pos}
use hammeregg.Prelude.Text.{is_blank}
use hammeregg.Prelude.Net.{
  parse_socket_addr, parse_ip_addr, read_socket_addr, read_ip_addr, read_ipv4_addr, read_number,
  digits, to_digit, read_port, read_ipv6_addr, read_groups,
}
use hammeregg.Backend.Ui.Platform.{
  Frame, Poll, waiting, received, Background, connect, generate_keys, serve, report_panic,
}
use hammeregg.Backend.Ui.Screen.{SetupScreen, RunningScreen, Screen, setup, keygen, running, next}
use hammeregg.Backend.Ui.Setup
use hammeregg.Backend.Ui.Keygen
use hammeregg.Backend.Ui.Running
use hammeregg.Backend.Ui.Key
use hammeregg.Backend.Ui.App.{
  Ui, set_up, End, drawn, shown, first_screen, draw, untouched, update, update_screen, show_next,
}
use hammeregg.Backend.Ui.App
use hammeregg.Backend.Ui.Packing.{same_kind, resized_iff_changed}
use hammeregg.Backend.Ui.Consistent.{IsSound, Encodes, IsRunning}
use hammeregg.Backend.Ui.Consistent.Pending.{update_pending}
use hammeregg.Backend.Ui.Consistent.Session.{
  session_returns, session_password_fits, SessionEnd, IsFrameOf,
}
use hammeregg.Tests.Ui.{small_platform, monitor, quiet, click, form, typed, nothing, default_addr}

-- A frame in which nothing is typed.
abbrev pub look :
    (Bool → Bool)
    → Poll (Error ⊎ ℕ)
    → Poll (ℕ × ℕ)
    → Option String
    → Frame ⦃platform = small_platform⦄
look clicks connection keys file = record quiet {
  button = clicks;
  connection = λ rx. connection;
  keys = λ rx. keys;
  save_file = file;
}

pub look-IsSound :
    (clicks : Bool → Bool) (connection : Poll (Error ⊎ ℕ)) (keys : Poll (ℕ × ℕ))
    (file : Option String)
    → IsSound ⦃platform = small_platform⦄ (look clicks connection keys file)
look-IsSound clicks connection keys file = record {
  name_field = λ text. refl;
  server_field = λ text. refl;
  ca_field = λ text. refl;
  monitor = (monitor, refl);
  write = λ file bson. tt;
}

click-IsSound : IsSound ⦃platform = small_platform⦄ click
click-IsSound = record {
  name_field = λ text. refl;
  server_field = λ text. refl;
  ca_field = λ text. refl;
  monitor = (monitor, refl);
  write = λ file bson. tt;
}

-- The connection is there, the keys are there, and the password is saved.
abbrev connects : Frame ⦃platform = small_platform⦄
connects = look (λ enabled. false) (received (inr 7)) waiting none

abbrev generated : Frame ⦃platform = small_platform⦄
generated = look (λ enabled. false) waiting (received (5, 6)) none

abbrev saves : Frame ⦃platform = small_platform⦄
saves = look (λ enabled. enabled) waiting waiting (some "egg.egps")

small_encodes : Encodes ⦃platform = small_platform⦄
small_encodes = record {
  public_pem = λ key. ("public", refl);
  private_pem = λ key. ("private", refl);
  to_vec = λ password. tt;
}

abbrev pending : SetupScreen
pending = record typed { signalling_connection_init = some 0 }

update_pending_example : Setup.update ⦃platform = small_platform⦄ connects pending nothing ≡ (
  ok (
      next
        (keygen (record {
          work_thread = 0;
          desktop_name = "home";
          signalling_server_addr = "127.0.0.1";
          extra_ca = none;
          wss = 7;
          error_msg = none;
          password_rx = 0;
        }))
        true),
  record { spawned = generate_keys ∷ []; files = [] },
)
update_pending_example =
    update_pending ⦃platform = small_platform⦄ connects pending nothing 0 (received (inr 7))
      (look-IsSound _ _ _ _) tt refl refl

abbrev session : List (Frame ⦃platform = small_platform⦄)
session = click ∷ connects ∷ generated ∷ saves ∷ []

abbrev first : Screen ⦃platform = small_platform⦄
first = setup (record form { signalling_server_addr = "" })

session-IsSound : All (IsSound ⦃platform = small_platform⦄) session
session-IsSound =
    (click-IsSound, (look-IsSound _ _ _ _, (look-IsSound _ _ _ _, (look-IsSound _ _ _ _, tt))))

session_returns_example :
    (screen : Screen ⦃platform = small_platform⦄) × (end : End ⦃platform = small_platform⦄)
    × (b : Background ⦃platform = small_platform⦄) × (first_screen ⦃platform = small_platform⦄
          (ok 0)
          (some "home")
        ≡ ok screen)
    × (draw ⦃platform = small_platform⦄ session
          (set_up ⦃platform = small_platform⦄ 3 (App.new ⦃platform = small_platform⦄ screen))
          (untouched ⦃platform = small_platform⦄)
        ≡ (ok end, b))
    × SessionEnd ⦃platform = small_platform⦄
        (IsFrameOf ⦃platform = small_platform⦄ session)
        3
        (ok 0)
        session
        end
        b
session_returns_example =
    session_returns ⦃platform = small_platform⦄ 3 "home" session (ok 0) tt session-IsSound
      small_encodes

first_begins : first_screen ⦃platform = small_platform⦄ (ok 0) (some "home") ≡ ok first
unfolding first_screen
first_begins = refl

abbrev last : RunningScreen
last = record {
  work_thread = 0;
  connected_label = "Connected to signalling server as 'home'.";
  password = none;
  error_msg = none;
}

abbrev last_background : Background ⦃platform = small_platform⦄
last_background = record {
  spawned =
      report_panic 0 2
      ∷ serve 0 7 5 6 (record { x = pos 0; y = pos 0; w = 1280; h = 720 })
      ∷ generate_keys
      ∷ connect 0 "home" default_addr none
      ∷ [];
  files = ("egg.egps", 1 ∷ []) ∷ [];
}

abbrev last_ui : Ui ⦃platform = small_platform⦄
last_ui = record { current_screen = some (running last); packed = true; clear_color = some 3 }

session_runs :
    draw ⦃platform = small_platform⦄ session
      (set_up ⦃platform = small_platform⦄ 3 (App.new ⦃platform = small_platform⦄ first))
      (untouched ⦃platform = small_platform⦄)
    ≡ (ok (drawn last_ui (true ∷ false ∷ true ∷ true ∷ [])), last_background)
unfolding draw update update_screen show_next Setup.update Setup.edit Setup.kept_ca_field is_blank
    Setup.after_fields Setup.submit Setup.validate_input Setup.check_desktop_name
    Setup.check_server_addr Setup.error_text Setup.try_parse_signalling_server_addr
    Setup.start_signalling_connection Setup.check_signalling_connection Setup.connected
    Setup.new_keygen Keygen.update Keygen.show_keys Keygen.take_keys Running.new
    Running.monitor_bounds Running.logical_bounds Running.start_serving Running.connected_label
    Running.update Running.updated Running.offer_password Running.saved Key.remote_password Key.save
    parse_socket_addr parse_ip_addr read_socket_addr read_ip_addr read_ipv4_addr read_number digits
    to_digit read_port read_ipv6_addr read_groups
session_runs = refl

session_password_fits_example :
    IsRunning ⦃platform = small_platform⦄
      (IsFrameOf ⦃platform = small_platform⦄ session)
      last
      last_background
session_password_fits_example =
    session_password_fits ⦃platform = small_platform⦄ 3 "home" session (ok 0) first last_ui
      (true ∷ false ∷ true ∷ true ∷ []) last last_background tt session-IsSound small_encodes
      first_begins session_runs refl

abbrev ui_of : Screen ⦃platform = small_platform⦄ → Bool → Ui ⦃platform = small_platform⦄
ui_of screen packed = record { current_screen = some screen; packed = packed; clear_color = none }

abbrev keygen_screen : Screen ⦃platform = small_platform⦄
keygen_screen = keygen (record {
  work_thread = 0;
  desktop_name = "home";
  signalling_server_addr = "127.0.0.1";
  extra_ca = none;
  wss = 7;
  error_msg = none;
  password_rx = 0;
})

abbrev keys_begun : Background ⦃platform = small_platform⦄
keys_begun = record { spawned = generate_keys ∷ []; files = [] }

update_changes :
    update ⦃platform = small_platform⦄ connects (ui_of (setup pending) true) nothing
    ≡ (ok (shown (ui_of keygen_screen false) false), keys_begun)
unfolding update update_screen show_next Setup.update Setup.edit Setup.kept_ca_field is_blank
    Setup.after_fields Setup.check_signalling_connection Setup.connected Setup.new_keygen
update_changes = refl

update_stays :
    update ⦃platform = small_platform⦄ quiet (ui_of keygen_screen false) keys_begun
    ≡ (ok (shown (ui_of keygen_screen true) true), keys_begun)
unfolding update update_screen show_next Keygen.update Keygen.show_keys Keygen.take_keys
update_stays = refl

resized_iff_changed_example :
    true ≡ not (same_kind ⦃platform = small_platform⦄ (setup pending) keygen_screen)
resized_iff_changed_example =
    resized_iff_changed ⦃platform = small_platform⦄ connects quiet (ui_of (setup pending) true)
      (ui_of keygen_screen false) (ui_of keygen_screen true) (setup pending) keygen_screen nothing
      keys_begun keys_begun false true refl update_changes refl update_stays
