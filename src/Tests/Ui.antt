-- ===== src/Tests/Ui.antt =====
-- hammer/hammeregg_backend/src/ui: a session of the desktop's window on small instances of what is
-- foreign.
use hammeregg.Prelude.{
  ℕ, [], ◌∷◌, true, false, ◌≡◌, refl, none, some, ok, ◌↔◌, if◌then◌else◌, arith,
}
use hammeregg.Prelude.Int.{pos}
use hammeregg.Prelude.Text.{chars, is_blank}
use hammeregg.Prelude.Net.{
  SocketAddr, v4, socket_addr, parse_socket_addr, parse_ip_addr, read_socket_addr, read_ip_addr,
  read_ipv4_addr, read_number, digits, to_digit, read_port, read_ipv6_addr, read_groups,
}
use hammeregg.Prelude.Net.Decimal.{decimal}
use hammeregg.Backend.Ui.Platform.{Platform, Frame, Monitor, waiting, Background, connect}
use hammeregg.Backend.Ui.Screen.{SetupScreen, setup, next}
use hammeregg.Backend.Ui.Setup
use hammeregg.Backend.Ui.Setup.{
  try_parse_signalling_server_addr, validate_input, check_desktop_name, check_server_addr,
  error_text, kept_ca_field,
}
use hammeregg.Backend.Ui.Setup.Address.{try_parse_signalling_server_addr-print_ipv4}
use hammeregg.Backend.Ui.Setup.Validation.{IsName, IsFilled, validate_input_iff}
use hammeregg.Backend.Ui.Setup.Update.{edited, update_starts}

abbrev pub small_platform : Platform
small_platform = record {
  Wss = ℕ;
  Rng = ℕ;
  PrivateKey = ℕ;
  PublicKey = ℕ;
  Scale = ℕ;
  Rgba = ℕ;
  new_private_key = λ rng size. ok rng;
  to_public_key = λ key. key;
  to_public_key_pem = λ key. ok "public";
  to_pkcs8_pem = λ key. ok "private";
  to_vec = λ password. ok (1 ∷ []);
  display = λ e. "failed";
  to_logical_offset = λ scale n. n;
  to_logical_size = λ scale n. n;
}

abbrev pub monitor : Monitor ⦃platform = small_platform⦄
monitor = record { position = (pos 0, pos 0); size = (1280, 720); scale_factor = 1 }

-- A frame in which nothing happens.
abbrev pub quiet : Frame ⦃platform = small_platform⦄
quiet = record {
  name_field = λ enabled text. text;
  server_field = λ enabled text. text;
  ca_field = λ enabled text. text;
  button = λ enabled. false;
  connection = λ rx. waiting;
  keys = λ rx. waiting;
  primary_monitor = none;
  available_monitors = monitor ∷ [];
  save_file = none;
  write = λ file bson. ok tt;
}

-- The click on `Start!` after an address was typed.
abbrev pub click : Frame ⦃platform = small_platform⦄
click = record quiet {
  server_field = λ enabled text. if enabled then "127.0.0.1" else text;
  button = λ enabled. enabled;
}

abbrev pub form : SetupScreen
form = record {
  work_thread = 0;
  desktop_name = "home";
  signalling_server_addr = "127.0.0.1:80";
  extra_ca = none;
  error_msg = none;
  signalling_connection_init = none;
}

abbrev pub nothing : Background ⦃platform = small_platform⦄
nothing = record { spawned = []; files = [] }

abbrev home_addr : SocketAddr
home_addr = socket_addr (v4 127 0 0 1) 80

form_parsed : try_parse_signalling_server_addr form ≡ some home_addr
unfolding try_parse_signalling_server_addr parse_socket_addr parse_ip_addr read_socket_addr
    read_ip_addr read_ipv4_addr read_number digits to_digit read_port read_ipv6_addr read_groups
form_parsed = refl

try_parse_signalling_server_addr-print_ipv4_example :
    try_parse_signalling_server_addr form ≡ some home_addr
try_parse_signalling_server_addr-print_ipv4_example =
    try_parse_signalling_server_addr-print_ipv4 127 0 0 1 (omega arith) (omega arith) (omega arith)
      (omega arith) form (some 80) (omega arith) (unfold decimal in refl)

pub home-IsName : IsName (chars "home")
home-IsName = (λ e. cc, (λ e. cc, (λ e. cc, (λ e. cc, (λ e. cc, tt)))))

form-IsFilled : IsFilled form
form-IsFilled = (home-IsName, (home_addr, form_parsed))

validate_input_iff_example :
    (((validate_input form).0 ≡ true) ↔ IsFilled form)
    × (((validate_input form).0 ≡ true) ↔ ((validate_input form).1.error_msg ≡ none))
validate_input_iff_example = validate_input_iff form

-- The form after the click.
abbrev pub typed : SetupScreen
typed = record form { signalling_server_addr = "127.0.0.1" }

abbrev pub default_addr : SocketAddr
default_addr = socket_addr (v4 127 0 0 1) 7269

pub edited-click : edited ⦃platform = small_platform⦄ click form ≡ typed
unfolding Setup.edit kept_ca_field is_blank
edited-click = refl

pub typed_parsed : try_parse_signalling_server_addr typed ≡ some default_addr
unfolding try_parse_signalling_server_addr parse_socket_addr parse_ip_addr read_socket_addr
    read_ip_addr read_ipv4_addr read_number digits to_digit read_port read_ipv6_addr read_groups
typed_parsed = refl

pub typed-IsFilled : IsFilled typed
typed-IsFilled = (home-IsName, (default_addr, typed_parsed))

update_starts_example : Setup.update ⦃platform = small_platform⦄ click form nothing ≡ (
  ok (next (setup (record typed { signalling_connection_init = some 0 })) false),
  record { spawned = connect 0 "home" default_addr none ∷ []; files = [] },
)
unfolding Setup.edit kept_ca_field is_blank
update_starts_example =
    update_starts ⦃platform = small_platform⦄ click form nothing default_addr refl refl
      typed-IsFilled typed_parsed
