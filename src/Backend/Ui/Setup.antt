-- ===== src/Backend/Ui/Setup.antt =====
-- hammer/hammeregg_backend/src/ui/setup.rs
pub mod Address
pub mod Validation
pub mod Update
use hammeregg.Prelude.{
  ℕ, String, str_append, List, [], ◌∷◌, ◌++◌, Bool, true, false, ◌&&◌, ◌||◌, not, Result, ok, err,
  panic, Option, none, some, unwrap, nat_eq, Error, ◌⊎◌, inl, inr, if◌then◌else◌,
}
use hammeregg.Prelude.Text.{chars, is_empty, is_blank}
use hammeregg.Prelude.Net.{IpAddr, SocketAddr, socket_addr, parse_socket_addr, parse_ip_addr}
use hammeregg.Prelude.Stateful.{◌>>=◌, ◌>>◌, pure, lift}
use hammeregg.Core.Packet.{default_hammeregg_port}
use hammeregg.Backend.Ui.Platform.{
  Platform, WorkThread, Receiver, Frame, Desk, Poll, waiting, canceled, received, connect,
  generate_keys, spawn,
}
use hammeregg.Backend.Ui.Screen.{SetupScreen, KeygenScreen, Screen, setup, keygen, Next, next}

-- `SetupScreen::new`, with what the generator of names answers.
abbrev pub new : WorkThread → Option String → Result SetupScreen
new work_thread generated = elim generated [
  | none ↦ panic
  | some name ↦ ok (record {
    work_thread = work_thread;
    desktop_name = name;
    signalling_server_addr = "";
    extra_ca = none;
    error_msg = none;
    signalling_connection_init = none;
  })
]

abbrev pub recover : WorkThread → String → String → Option String → SetupScreen
recover work_thread desktop_name signalling_server_addr extra_ca = record {
  work_thread = work_thread;
  desktop_name = desktop_name;
  signalling_server_addr = signalling_server_addr;
  extra_ca = extra_ca;
  error_msg = none;
  signalling_connection_init = none;
}

-- The text as a whole address, or else as an IP address that gets the default port.
abbrev pub or_default_port : Option SocketAddr → Option IpAddr → Option SocketAddr
or_default_port (some addr) ip = some addr
or_default_port none (some ip) = some (socket_addr ip default_hammeregg_port)
or_default_port none none = none

unfoldable pub try_parse_signalling_server_addr : SetupScreen → Option SocketAddr
try_parse_signalling_server_addr screen =
    let text = chars screen.signalling_server_addr in
    or_default_port (parse_socket_addr text) (parse_ip_addr text)

abbrev pub contains_nul : List ℕ → Bool
contains_nul [] = false
contains_nul (c ∷ cs) = let rest = contains_nul cs in nat_eq c 0 || rest

-- `join(", ")`
abbrev pub join : List String → String
join [] = ""
join (error ∷ []) = error
join (error ∷ error' ∷ errors) =
    let rest = join (error' ∷ errors) in str_append error (str_append ", " rest)

-- The value of `valid` after a check, and the errors that it pushes.
unfoldable pub check_desktop_name : String → Bool × List String
check_desktop_name name =
    if is_empty (chars name)
    then (false, "desktop name cannot be empty" ∷ [])
    else if contains_nul (chars name)
    then (false, "desktop name cannot contain '\\0'" ∷ [])
    else (true, [])

unfoldable pub check_server_addr : SetupScreen → Bool × List String
check_server_addr screen = elim (try_parse_signalling_server_addr screen) [
  | none ↦ (false, "signalling server is not a valid ip:port" ∷ [])
  | some addr ↦ (true, [])
]

unfoldable pub error_text : List String → Option String
error_text [] = none
error_text (error ∷ []) = some (str_append "Error: " (str_append (join (error ∷ [])) "!"))
error_text (error ∷ error' ∷ errors) =
    some (str_append "Errors: " (str_append (join (error ∷ error' ∷ errors)) "!"))

unfoldable pub validate_input : SetupScreen → Bool × SetupScreen
unfolding check_desktop_name check_server_addr error_text
validate_input screen =
    let (name_valid, name_errors) = check_desktop_name screen.desktop_name in
    let (addr_valid, addr_errors) = check_server_addr screen in
    (
      name_valid && addr_valid,
      record screen { error_msg = error_text (name_errors ++ addr_errors) },
    )

-- The content of the field for the root certificate.
abbrev pub editable_ca_field : Option String → String
editable_ca_field none = ""
editable_ca_field (some path) = path

-- What is kept of it.
unfoldable pub kept_ca_field : String → Option String
unfolding is_blank
kept_ca_field text = if is_blank (chars text) then none else some text

abbrev pub is_none : {A : Type 0} → Option A → Bool
is_none none = true
is_none (some a) = false

module _ ⦃platform : Platform⦄ where
  unfoldable pub start_signalling_connection : SetupScreen → Desk SetupScreen
  start_signalling_connection screen = do
    addr ← lift (unwrap (try_parse_signalling_server_addr screen))
    rx ← spawn (connect screen.work_thread screen.desktop_name addr screen.extra_ca)
    pure (record screen { signalling_connection_init = some rx })

  abbrev pub failed : SetupScreen → String → SetupScreen
  failed screen text = record screen { error_msg = some text; signalling_connection_init = none }

  -- What the answer of `try_recv` comes to.
  abbrev pub take_connection :
      SetupScreen → Poll (Error ⊎ platform.Wss) → Result (Option platform.Wss × SetupScreen)
  take_connection screen waiting = ok (none, screen)
  take_connection screen canceled = ok (none, failed screen "Error: Signalling thread panicked")
  take_connection screen (received (inl e)) =
      ok (none, failed screen (str_append "Error: " (platform.display e)))
  take_connection screen (received (inr wss)) = ok (some wss, screen)

  unfoldable pub check_signalling_connection :
      Frame → SetupScreen → Result (Option platform.Wss × SetupScreen)
  check_signalling_connection frame screen = elim screen.signalling_connection_init [
    | none ↦ panic
    | some rx ↦ take_connection screen (frame.connection rx)
  ]

  -- The form of a frame: the three fields.
  unfoldable pub edit : Frame → Bool → SetupScreen → SetupScreen
  unfolding kept_ca_field
  edit frame enabled screen = record screen {
    desktop_name = frame.name_field enabled screen.desktop_name;
    signalling_server_addr = frame.server_field enabled screen.signalling_server_addr;
    extra_ca = kept_ca_field (frame.ca_field enabled (editable_ca_field screen.extra_ca));
  }

  -- `KeygenScreen::new`
  unfoldable pub new_keygen :
      WorkThread → String → String → Option String → platform.Wss → Desk KeygenScreen
  new_keygen work_thread desktop_name signalling_server_addr extra_ca wss = do
    rx ← spawn generate_keys
    pure (record {
      work_thread = work_thread;
      desktop_name = desktop_name;
      signalling_server_addr = signalling_server_addr;
      extra_ca = extra_ca;
      wss = wss;
      error_msg = none;
      password_rx = rx;
    })

  -- The end of an update that has looked for the connection.
  unfoldable pub connected : Option platform.Wss × SetupScreen → Desk Next
  unfolding new_keygen
  connected (none, screen) = pure (next (setup screen) false)
  connected (some wss, screen) = do
    keys ←
        new_keygen screen.work_thread screen.desktop_name screen.signalling_server_addr
          screen.extra_ca wss
    pure (next (keygen keys) true)

  -- The end of an update whose button was clicked, with what the validation made of the screen.
  unfoldable pub submit : Bool × SetupScreen → Desk Next
  unfolding start_signalling_connection
  submit (true, screen) = do
    started ← start_signalling_connection screen
    pure (next (setup started) false)
  submit (false, screen) = pure (next (setup screen) false)

  -- The end of an update, with whether the form is enabled and whether the button was clicked.
  unfoldable pub after_fields : Frame → Bool → Bool → SetupScreen → Desk Next
  unfolding submit check_signalling_connection connected validate_input
  after_fields frame true true screen = submit (validate_input screen)
  after_fields frame true false screen = pure (next (setup screen) false)
  after_fields frame false clicked screen = do
    checked ← lift (check_signalling_connection frame screen)
    connected checked

  unfoldable pub update : Frame → SetupScreen → Desk Next
  unfolding edit after_fields
  update frame screen =
      let enabled = is_none screen.signalling_connection_init in
      after_fields frame enabled (frame.button enabled) (edit frame enabled screen)
