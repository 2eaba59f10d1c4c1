-- ===== src/Rooster/Config.antt =====
-- hammer/hammeregg_rooster/src/main.rs: the values of the command line, the start of the server, and
-- the loop that accepts connections.
pub mod Port
pub mod Start
use hammeregg.Prelude.{
  ℕ, ◌+◌, ◌*◌, ◌^◌, String, List, [], ◌∷◌, Bool, true, false, Result, ok, err, panic, message,
  Error, Option, none, some, ◌>>=◌, ◌>>◌, unwrap, unwrap_result, with_context, nat_eq, leb,
  if◌then◌else◌,
}
use hammeregg.Prelude.Text.{chars}
use hammeregg.Prelude.Net.{IpAddr, SocketAddr, socket_addr, parse_ip_addr, to_digit}
use hammeregg.Core.Packet.{Bytes}

-- pretty_env_logger, `std::fs::File`, rustls_pemfile, rustls and tokio. A file is read as it is at the time.
pub record Machine : Type 1 where
  pub Builder : Type 0
  pub formatted_builder : Builder
  pub filter_info : Builder → Builder
  pub parse_filters : String → Builder → Builder
  pub parse_write_style : String → Builder → Builder
  pub try_init : Builder → Result (Unit {0})
  pub ServerConfig : Type 0
  pub TcpListener : Type 0
  pub display : Error → String
  pub open_file : String → Result Bytes
  pub certs : Bytes → Result (List Bytes)
  pub rsa_private_keys : Bytes → Result (List Bytes)
  pub with_single_cert : List Bytes → Bytes → Result ServerConfig
  pub bind : SocketAddr → Result TcpListener

-- The loop of `u16::from_str`: a digit, the number times ten, and the sum, each checked.
unfoldable pub parse_digits : ℕ → List ℕ → Result ℕ
parse_digits result [] = ok result
parse_digits result (c ∷ cs) = elim (to_digit 10 c) [
  | none ↦ err (message "invalid digit found in string")
  | some x ↦ elim (leb (2 ^ 16) (result * 10 + x)) [
    | true ↦ err (message "number too large to fit in target type")
    | false ↦ parse_digits (result * 10 + x) cs
  ]
]

-- `u16::from_str`: a sign is a plus, and is not alone.
unfoldable pub parse_u16 : List ℕ → Result ℕ
unfolding parse_digits
parse_u16 [] = err (message "cannot parse integer from empty string")
parse_u16 (c ∷ []) = parse_digits 0 (c ∷ [])
parse_u16 (c ∷ d ∷ cs) =
    if nat_eq c b'+' then parse_digits 0 (d ∷ cs) else parse_digits 0 (c ∷ d ∷ cs)

unfoldable pub validate_port : String → Result ℕ
unfolding parse_u16
validate_port val = parse_u16 (chars val)

unfoldable pub validate_ip : String → Result IpAddr
validate_ip val = elim (parse_ip_addr (chars val)) [
  | some ip ↦ ok ip
  | none ↦ err (message "invalid IP address syntax")
]

module _ ⦃machine : Machine⦄ where
  -- `if let Ok(s) = std::env::var(..)`, with what the variable holds.
  abbrev pub when_set :
      Option String
      → (String → machine.Builder → machine.Builder)
      → machine.Builder
      → machine.Builder
  when_set none f builder = builder
  when_set (some s) f builder = f s builder

  -- The logger takes what `RUST_LOG` and `RUST_LOG_STYLE` hold.
  unfoldable pub init_logging : Option String → Option String → Result (Unit {0})
  init_logging rust_log rust_log_style = unwrap_result (
      machine.try_init (
        when_set rust_log_style machine.parse_write_style (
          when_set rust_log machine.parse_filters (machine.filter_info machine.formatted_builder))))

  -- `map_err(display_err)`
  abbrev pub display_err {ℓ} : {A : Type ℓ} → Result A → Result A
  display_err (ok a) = ok a
  display_err (err e) = err (message (machine.display e))
  display_err panic = panic

  unfoldable pub validate_certs : String → Result (List Bytes)
  validate_certs val = do
    file ← display_err (machine.open_file val)
    display_err (machine.certs file)

  -- `swap_remove(0)` of a list that is not empty.
  abbrev pub first_key : List Bytes → Result Bytes
  first_key [] = err (message "Key file must contain a single key")
  first_key (key ∷ keys) = ok key

  unfoldable pub validate_key : String → Result Bytes
  validate_key val = do
    file ← display_err (machine.open_file val)
    keys ← display_err (machine.rsa_private_keys file)
    first_key keys

  -- The arguments, by their names in `clap_app!`.
  pub data Arg : Type 0 where
    ip_arg port_arg certificates_arg key_arg : Arg

  -- The server that listens.
  pub record Listening : Type 0 where
    pub addr : SocketAddr
    pub config : machine.ServerConfig
    pub listener : machine.TcpListener

  -- `main` up to its loop, with what `value_of` answers.
  unfoldable pub start : (Arg → Option String) → Result Listening
  unfolding validate_ip validate_port validate_certs validate_key
  start value_of = do
    ip_val ← unwrap (value_of ip_arg)
    ip ← unwrap_result (validate_ip ip_val)
    port_val ← unwrap (value_of port_arg)
    port ← unwrap_result (validate_port port_val)
    certs_val ← unwrap (value_of certificates_arg)
    certs ← unwrap_result (validate_certs certs_val)
    key_val ← unwrap (value_of key_arg)
    key ← unwrap_result (validate_key key_val)
    config ← with_context (machine.with_single_cert certs key) "Invalid cert/key!"
    listener ← with_context (machine.bind (socket_addr ip port)) "Couldn't bind to port"
    ok (record { addr = socket_addr ip port; config = config; listener = listener })

-- What `accept` answered so far: the connections that got a task, and whether the loop has ended.
unfoldable pub accept_loop : {A : Type 0} → List (Result A) → List A × Bool
accept_loop [] = ([], false)
accept_loop (ok stream ∷ answers) =
    let (spawned, ended) = accept_loop answers in (stream ∷ spawned, ended)
accept_loop (err e ∷ answers) = ([], true)
accept_loop (panic ∷ answers) = ([], true)

-- `main`, with the environment, the arguments, and what `accept` answered so far.
module _ ⦃machine : Machine⦄ where
  unfoldable pub main :
      {A : Type 0}
      → Option String
      → Option String
      → (Arg → Option String)
      → List (Result A)
      → Result (List A × Bool)
  unfolding init_logging start accept_loop
  main rust_log rust_log_style value_of answers = do
    logging ← init_logging rust_log rust_log_style
    listening ← start value_of
    ok (accept_loop answers)
