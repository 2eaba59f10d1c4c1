-- ===== src/Prelude/Net.antt =====
-- `std::net` addresses, and their `parse` as the standard library of the toolchain has it: a parser
-- that reads the bytes of a text from the front, and leaves them as they are where it fails.
pub mod Decimal
pub mod Decimals
pub mod Printed
use Prim.Native.Nat.{ℕ, zero, suc, ◌+◌, ◌-◌, ◌*◌, ◌^◌}
use mathlib.Core.Bool.{Bool, true, false, not, ◌&&◌, ◌||◌}
use mathlib.Core.Option.{Option, none, some}
use mathlib.Core.List.{List, [], ◌∷◌, ◌++◌}
use hammeregg.Prelude.Tests.{if◌then◌else◌, leb, ltb, nat_eq}
use hammeregg.Prelude.Lists.{length}

-- The eight groups of an IPv6 address are a list.
pub data IpAddr : Type 0 where
  v4 : ℕ → ℕ → ℕ → ℕ → IpAddr
  v6 : List ℕ → IpAddr

-- The scope of an IPv4 address is 0.
pub record SocketAddr : Type 0 where
  pub ip : IpAddr
  pub port : ℕ
  pub scope_id : ℕ

-- `SocketAddr::new`
abbrev pub socket_addr : IpAddr → ℕ → SocketAddr
socket_addr ip port = record { ip = ip; port = port; scope_id = 0 }

abbrev pub Parser : Type 0 → Type 0
Parser A = List ℕ → Option (A × List ℕ)

abbrev pub and_then : {A B : Type 0} → Option (A × List ℕ) → (A → Parser B) → Option (B × List ℕ)
and_then (some (a, rest)) f = f a rest
and_then none f = none

infixl 5 ◌>>=◌ ◌>>◌
abbrev pub ◌>>=◌ : {A B : Type 0} → Parser A → (A → Parser B) → Parser B
◌>>=◌ p f bs = and_then (p bs) f

abbrev pub ◌>>◌ : {A B : Type 0} → Parser A → Parser B → Parser B
p >> q = p >>= λ _. q

abbrev pub done : {A : Type 0} → A → Parser A
done a bs = some (a, bs)

-- `or_else`
abbrev pub or_else : {R : Type 0} → Option R → Option R → Option R
or_else (some r) other = some r
or_else none other = other

abbrev pub first_of : {A : Type 0} → Parser A → Parser A → Parser A
first_of p q bs = or_else (p bs) (q bs)

-- `char::to_digit`
unfoldable pub to_digit : ℕ → ℕ → Option ℕ
to_digit radix b =
    let value =
      if leb b'0' b && leb b b'9'
      then b - b'0'
      else if leb b'a' b && leb b b'z'
      then b - b'a' + 10
      else if leb b'A' b && leb b b'Z'
      then b - b'A' + 10
      else radix in
    if ltb value radix then some value else none

-- `read_given_char`
abbrev pub given : ℕ → Parser (Unit {0})
given c [] = none
given c (b ∷ bs) = if nat_eq b c then some (tt, bs) else none

-- More digits than are allowed.
abbrev pub exceeds : ℕ → Option ℕ → Bool
exceeds n (some max_digits) = ltb max_digits n
exceeds n none = false

-- The loop of `read_number`: the number so far, below `bound`, and the count of its digits.
unfoldable pub digits : ℕ → ℕ → Option ℕ → ℕ → ℕ → Parser (ℕ × ℕ)
digits radix bound max_digits result count [] = some ((result, count), [])
digits radix bound max_digits result count (b ∷ bs) = elim (to_digit radix b) [
  | none ↦ some ((result, count), b ∷ bs)
  | some digit ↦ elim (leb bound (result * radix + digit) || exceeds (count + 1) max_digits) [
    | true ↦ none
    | false ↦ digits radix bound max_digits (result * radix + digit) (count + 1) bs
  ]
]

abbrev pub has_leading_zero : List ℕ → Bool
has_leading_zero [] = false
has_leading_zero (b ∷ bs) = nat_eq b b'0'

-- The end of `read_number`, with the number, the count of its digits and what is behind them.
abbrev pub accept_number : Bool → List ℕ → ℕ × ℕ → Parser ℕ
accept_number allow_zero_prefix bs (result, count) rest =
    if nat_eq count 0 || (not allow_zero_prefix && (has_leading_zero bs && ltb 1 count))
    then none
    else some (result, rest)

-- `read_number`, for numbers below `bound`.
unfoldable pub read_number : ℕ → ℕ → Option ℕ → Bool → Parser ℕ
read_number radix bound max_digits allow_zero_prefix bs =
    and_then (digits radix bound max_digits 0 0 bs) (accept_number allow_zero_prefix bs)

-- `read_separator`: before every item but the first.
abbrev pub read_separator : {A : Type 0} → ℕ → ℕ → Parser A → Parser A
read_separator sep zero inner = inner
read_separator sep (suc index) inner = given sep >> inner

abbrev pub octet : Parser ℕ
octet = read_number 10 (2 ^ 8) (some 3) false

unfoldable pub read_ipv4_addr : Parser (ℕ × ℕ × ℕ × ℕ)
read_ipv4_addr = do
  a ← octet
  b ← given b'.' >> octet
  c ← given b'.' >> octet
  d ← given b'.' >> octet
  done (a, b, c, d)

abbrev pub hex_group : Parser ℕ
hex_group = read_number 16 (2 ^ 16) (some 4) true

-- What `read_groups` has found: the groups, and whether the last two are an IPv4 address.
pub record Groups : Type 0 where
  pub groups : List ℕ
  pub has_ipv4 : Bool

abbrev pub group_then : ℕ → Groups × List ℕ → Groups × List ℕ
group_then g (found, rest) = (record found { groups = g ∷ found.groups }, rest)

abbrev pub ipv4_groups : ℕ × ℕ × ℕ × ℕ → Groups
ipv4_groups (a, b, c, d) = record {
  groups = (a * 2 ^ 8 + b) ∷ (c * 2 ^ 8 + d) ∷ [];
  has_ipv4 = true;
}

-- `read_groups`: how many groups there may still be, and how many there are. An IPv4 address stands
-- for two.
unfoldable pub read_groups : ℕ → ℕ → List ℕ → Groups × List ℕ
read_groups zero index bs = (record { groups = []; has_ipv4 = false }, bs)
read_groups (suc zero) index bs = elim (read_separator b':' index hex_group bs) [
  | some (g, rest) ↦ (record { groups = g ∷ []; has_ipv4 = false }, rest)
  | none ↦ (record { groups = []; has_ipv4 = false }, bs)
]
read_groups (suc (suc left)) index bs = elim (read_separator b':' index read_ipv4_addr bs) [
  | some (octets, rest) ↦ (ipv4_groups octets, rest)
  | none ↦ elim (read_separator b':' index hex_group bs) [
    | some (g, rest) ↦ group_then g (read_groups (suc left) (suc index) rest)
    | none ↦ (record { groups = []; has_ipv4 = false }, bs)
  ]
]

abbrev pub zeros : ℕ → List ℕ
zeros zero = []
zeros (suc n) = 0 ∷ zeros n

-- `::`, and the groups behind it.
abbrev pub read_tail : List ℕ → Parser (List ℕ)
read_tail head bs =
    let (tail, rest) = read_groups (7 - length head) 0 bs in
    some (head ++ (zeros (8 - (length head + length tail.groups)) ++ tail.groups), rest)

abbrev pub read_rest : Groups × List ℕ → Option (List ℕ × List ℕ)
read_rest (head, bs) =
    if nat_eq (length head.groups) 8
    then some (head.groups, bs)
    else if head.has_ipv4
    then none
    else (given b':' >> given b':' >> read_tail head.groups) bs

unfoldable pub read_ipv6_addr : Parser (List ℕ)
read_ipv6_addr bs = read_rest (read_groups 8 0 bs)

abbrev pub of_octets : ℕ × ℕ × ℕ × ℕ → IpAddr
of_octets (a, b, c, d) = v4 a b c d

unfoldable pub read_ip_addr : Parser IpAddr
read_ip_addr =
    first_of (do o ← read_ipv4_addr; done (of_octets o)) (do g ← read_ipv6_addr; done (v6 g))

unfoldable pub read_port : Parser ℕ
read_port = given b':' >> read_number 10 (2 ^ 16) none true

-- `read_scope_id().unwrap_or(0)`
abbrev pub read_scope_id : Parser ℕ
read_scope_id = first_of (given b'%' >> read_number 10 (2 ^ 32) none true) (done 0)

abbrev pub read_socket_addr_v4 : Parser SocketAddr
read_socket_addr_v4 = do o ← read_ipv4_addr; port ← read_port; done (socket_addr (of_octets o) port)

abbrev pub read_socket_addr_v6 : Parser SocketAddr
read_socket_addr_v6 = do
  g ← given b'[' >> read_ipv6_addr
  scope_id ← read_scope_id
  port ← given b']' >> read_port
  done (record { ip = v6 g; port = port; scope_id = scope_id })

unfoldable pub read_socket_addr : Parser SocketAddr
read_socket_addr = first_of read_socket_addr_v4 read_socket_addr_v6

-- `parse_with`: nothing may be left.
abbrev pub all_read : {A : Type 0} → Option (A × List ℕ) → Option A
all_read (some (a, [])) = some a
all_read _ = none

unfoldable pub parse_socket_addr : List ℕ → Option SocketAddr
parse_socket_addr text = all_read (read_socket_addr text)

unfoldable pub parse_ip_addr : List ℕ → Option IpAddr
parse_ip_addr text = all_read (read_ip_addr text)
