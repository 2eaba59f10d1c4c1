-- ===== src/Prelude/Net/Printed.antt =====
-- A printed IPv4 address is read back, with a port or without one.
use Prim.Native.Nat.{ℕ, ◌^◌, ◌<◌}
use mathlib.Core.Path.{◌≡◌, refl, ap, sym, ◌∙◌}
use mathlib.Core.Option.{Option, some, none}
use mathlib.Core.List.{List, [], ◌∷◌, ◌++◌, append-nil}
use mathlib.Core.Bool.{true, false}
use native.Mathlib.Omega.{arith}
use hammeregg.Prelude.Net.{
  v4, socket_addr, read_number, read_ipv4_addr, read_port, read_ip_addr, read_socket_addr,
  parse_ip_addr, parse_socket_addr, octet, to_digit, given, and_then, Parser, ◌>>◌,
}
use hammeregg.Prelude.Net.Decimal.{decimal}
use hammeregg.Prelude.Net.Decimals.{
  EndsNumber, read_number-decimal, length-decimal-byte, given-decimal,
}

-- The `Display` of an IPv4 address, with a text behind it.
abbrev pub print_ipv4 : ℕ → ℕ → ℕ → ℕ → List ℕ → List ℕ
print_ipv4 a b c d rest =
    decimal a ++ (b'.' ∷ (decimal b ++ (b'.' ∷ (decimal c ++ (b'.' ∷ (decimal d ++ rest))))))

octet-decimal :
    (n : ℕ) (rest : List ℕ)
    → n < 2 ^ 8
    → EndsNumber rest
    → octet (decimal n ++ rest) ≡ some (n, rest)
octet-decimal n rest h ends =
    read_number-decimal (2 ^ 8) (some 3) false n rest h (length-decimal-byte n h) ends

dot-octet :
    (n : ℕ) (rest : List ℕ)
    → n < 2 ^ 8
    → EndsNumber rest
    → (given b'.' >> octet) (b'.' ∷ (decimal n ++ rest)) ≡ some (n, rest)
dot-octet n rest h ends = octet-decimal n rest h ends

dot_ends : to_digit 10 b'.' ≡ none
unfolding to_digit
dot_ends = refl

colon_ends : to_digit 10 b':' ≡ none
unfolding to_digit
colon_ends = refl

no_port : read_port [] ≡ none
unfolding read_port
no_port = refl

and_then-some :
    {A B : Type 0} {o : Option (A × List ℕ)} (f : A → Parser B) {a : A} {rest : List ℕ}
    → o ≡ some (a, rest)
    → and_then o f ≡ f a rest
and_then-some f e = ap (λ p. and_then p f) e

module _ (a b c d : ℕ) (ha : a < 2 ^ 8) (hb : b < 2 ^ 8) (hc : c < 2 ^ 8) (hd : d < 2 ^ 8) where
  read_ipv4_addr-print_ipv4 :
      (rest : List ℕ)
      → EndsNumber rest
      → read_ipv4_addr (print_ipv4 a b c d rest) ≡ some ((a, b, c, d), rest)
  unfolding read_ipv4_addr
  read_ipv4_addr-print_ipv4 rest ends =
      and_then-some _ (octet-decimal a _ ha dot_ends)
      ∙ and_then-some _ (dot-octet b _ hb dot_ends)
      ∙ and_then-some _ (dot-octet c _ hc dot_ends)
      ∙ and_then-some _ (dot-octet d rest hd ends)

  -- The printed address is an IP address.
  pub parse_ip_addr-print_ipv4 : parse_ip_addr (print_ipv4 a b c d []) ≡ some (v4 a b c d)
  unfolding parse_ip_addr read_ip_addr
  parse_ip_addr-print_ipv4 = rw (read_ipv4_addr-print_ipv4 [] tt)

  read_port-decimal : (p : ℕ) → p < 2 ^ 16 → read_port (b':' ∷ decimal p) ≡ some (p, [])
  unfolding read_port
  read_port-decimal p h =
      ap (read_number 10 (2 ^ 16) none true) (sym (append-nil (decimal p)))
      ∙ read_number-decimal (2 ^ 16) none true p [] h tt tt

  -- The printed address with a port is a socket address.
  pub parse_socket_addr-print_ipv4 :
      (p : ℕ)
      → p < 2 ^ 16
      → parse_socket_addr (print_ipv4 a b c d (b':' ∷ decimal p))
        ≡ some (socket_addr (v4 a b c d) p)
  unfolding parse_socket_addr read_socket_addr
  parse_socket_addr-print_ipv4 p h =
      rw (read_ipv4_addr-print_ipv4 (b':' ∷ decimal p) colon_ends, read_port-decimal p h)

  -- Without a port it is none.
  pub parse_socket_addr-no_port : parse_socket_addr (print_ipv4 a b c d []) ≡ none
  unfolding parse_socket_addr read_socket_addr
  parse_socket_addr-no_port =
      rw (read_ipv4_addr-print_ipv4 [] tt, no_port, given-decimal b'[' a _ (omega arith))
