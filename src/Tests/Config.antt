-- ===== src/Tests/Config.antt =====
-- hammer/hammeregg_rooster/src/main.rs: the start of the server on a small machine.
use hammeregg.Prelude.{
  ℕ, ◌^◌, ◌<◌, String, [], ◌∷◌, ◌++◌, map, true, ◌≡◌, ◌≢◌, ◌↔◌, refl, Option, some, none, ok, err,
  message,
}
use hammeregg.Prelude.Text.{chars}
use hammeregg.Prelude.Net.{
  v4, parse_ip_addr, read_ip_addr, read_ipv4_addr, read_number, digits, to_digit,
}
use hammeregg.Core.Packet.{Bytes}
use hammeregg.Rooster.Config.{
  Machine, Arg, ip_arg, port_arg, certificates_arg, key_arg, validate_ip, validate_port,
  validate_certs, validate_key, parse_u16, parse_digits, init_logging, main,
}
use hammeregg.Rooster.Config.Port.{value_after, numeral, validate_port_iff}
use hammeregg.Rooster.Config.Start.{main_ends}

abbrev small_machine : Machine
small_machine = record {
  Builder = ℕ;
  formatted_builder = 0;
  filter_info = λ b. b;
  parse_filters = λ text b. b;
  parse_write_style = λ text b. b;
  try_init = λ b. ok tt;
  ServerConfig = Bytes;
  TcpListener = ℕ;
  display = λ e. "failed";
  open_file = λ path. ok (1 ∷ []);
  certs = λ file. ok (file ∷ []);
  rsa_private_keys = λ file. ok (file ∷ []);
  with_single_cert = λ certs key. ok key;
  bind = λ addr. ok addr.port;
}

-- The defaults of the address and the port.
abbrev value_of : Arg ⦃machine = small_machine⦄ → Option String
value_of ip_arg = some "127.0.0.1"
value_of port_arg = some "7269"
value_of certificates_arg = some "rooster.crt"
value_of key_arg = some "rooster.key"

validate_port_iff_example :
    (validate_port "+80" ≡ ok 80)
    ↔ ((chars "+80" ≢ []) × (value_after 0 (numeral (chars "+80")) ≡ some 80) × (80 < 2 ^ 16))
validate_port_iff_example = validate_port_iff "+80" 80

main_ends_example :
    main ⦃machine = small_machine⦄ {A = ℕ}
      (some "warn")
      none
      value_of
      (map ok (1 ∷ 2 ∷ []) ++ err (message "too many files") ∷ ok 3 ∷ [])
    ≡ ok (1 ∷ 2 ∷ [], true)
unfolding init_logging validate_ip validate_port validate_certs validate_key parse_u16 parse_digits
    parse_ip_addr read_ip_addr read_ipv4_addr read_number digits to_digit
main_ends_example =
    main_ends ⦃machine = small_machine⦄ value_of "127.0.0.1" "7269" "rooster.crt" "rooster.key"
      (v4 127 0 0 1) 7269 ((1 ∷ []) ∷ []) (1 ∷ []) refl refl refl refl refl refl refl refl
      (some "warn") none (1 ∷ []) 7269 (1 ∷ 2 ∷ []) (message "too many files") (ok 3 ∷ []) refl refl
      refl
