-- ===== src/Backend/Ui/Setup/Address.antt =====
-- hammer/hammeregg_backend/src/ui/setup.rs: the address that the form has.
use hammeregg.Prelude.{ℕ, ◌^◌, ◌<◌, ◌≡◌, List, [], ◌∷◌, Option, none, some}
use hammeregg.Prelude.Text.{chars}
use hammeregg.Prelude.Net.{SocketAddr, IpAddr, v4, socket_addr, parse_socket_addr, parse_ip_addr}
use hammeregg.Prelude.Net.Decimal.{decimal}
use hammeregg.Prelude.Net.Printed.{
  print_ipv4, parse_ip_addr-print_ipv4, parse_socket_addr-print_ipv4, parse_socket_addr-no_port,
}
use hammeregg.Core.Packet.{default_hammeregg_port}
use hammeregg.Backend.Ui.Screen.{SetupScreen}
use hammeregg.Backend.Ui.Setup.{or_default_port, try_parse_signalling_server_addr}

parsed_as :
    (screen : SetupScreen) {text : List ℕ} {whole : Option SocketAddr} {ip : Option IpAddr}
    → chars screen.signalling_server_addr ≡ text
    → parse_socket_addr text ≡ whole
    → parse_ip_addr text ≡ ip
    → try_parse_signalling_server_addr screen ≡ or_default_port whole ip
unfolding try_parse_signalling_server_addr
parsed_as screen e e' e'' = cc

-- The end of a printed address, with a port or without one.
abbrev pub print_port : Option ℕ → List ℕ
print_port none = []
print_port (some p) = b':' ∷ decimal p

abbrev pub port_or_default : Option ℕ → ℕ
port_or_default none = default_hammeregg_port
port_or_default (some p) = p

abbrev pub IsPort : Option ℕ → Type 0
IsPort none = Unit
IsPort (some p) = p < 2 ^ 16

module _ (a b c d : ℕ) (ha : a < 2 ^ 8) (hb : b < 2 ^ 8) (hc : c < 2 ^ 8) (hd : d < 2 ^ 8)
    (screen : SetupScreen) where
  -- Whatever IPv4 address stands in the form as it is printed is read back, with the port behind
  -- it, or with the default port if there is none.
  pub try_parse_signalling_server_addr-print_ipv4 :
      (port : Option ℕ)
      → IsPort port
      → chars screen.signalling_server_addr ≡ print_ipv4 a b c d (print_port port)
      → try_parse_signalling_server_addr screen
        ≡ some (socket_addr (v4 a b c d) (port_or_default port))
  unfolding try_parse_signalling_server_addr
  try_parse_signalling_server_addr-print_ipv4 (some p) hp e =
      rw
        (try_parse_signalling_server_addr, e, parse_socket_addr-print_ipv4 a b c d ha hb hc hd p hp)
  try_parse_signalling_server_addr-print_ipv4 none hp e =
      parsed_as screen e (parse_socket_addr-no_port a b c d ha hb hc hd)
        (parse_ip_addr-print_ipv4 a b c d ha hb hc hd)
