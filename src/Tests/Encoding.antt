-- ===== src/Tests/Encoding.antt =====
-- A small encoding in the place of BSON, and channels that take packets until they are closed: what
-- the hypotheses about foreign code ask for can be had.
use hammeregg.Prelude.{
  ℕ, zero, suc, String, ◌≡◌, refl, arith, List, [], ◌∷◌, ◌++◌, Bool, false, ◌||◌, Option, none,
  some, Result, ok, err, panic, message, >>=-eq-ok, or_message, ◌>>=◌, nat_eq, if◌then◌else◌,
  str_eq, eq_iff,
}
use mathlib.Core.Option
use hammeregg.Prelude.Int.{ℤ, pos, negsuc}
use hammeregg.Core.Packet.{
  Bytes, HandshakePacket, HandshakeInitPacket, accepted, refused, home_init, home_init_response,
  remote_init, remote_init_response, remote_offer, home_answer_success, home_answer_failure,
  magic_number, version_1_0,
}
use hammeregg.Core.Wire.{Codec, IsCodec}
use hammeregg.Rooster.Peers.{Sender}
use hammeregg.Rooster.Task.{Env, Event, sent, closed, receiver_dropped}

-- Only these texts can be written.
abbrev pub text_code : String → Option ℕ
text_code t =
    if str_eq t "home"
    then some 0
    else if str_eq t "Requested desktop name was already taken"
    then some 1
    else if str_eq t "Requested desktop not found"
    then some 2
    else if str_eq t "Signalling failed"
    then some 3
    else none

abbrev code_text : ℕ → Option String
code_text zero = some "home"
code_text (suc zero) = some "Requested desktop name was already taken"
code_text (suc (suc zero)) = some "Requested desktop not found"
code_text (suc (suc (suc zero))) = some "Signalling failed"
code_text _ = none

code_text-text_code : (t : String) (n : ℕ) → text_code t ≡ some n → code_text n ≡ some t
code_text-text_code t n h = ground (
  arith,
  eq_iff t "home",
  eq_iff t "Requested desktop name was already taken",
  eq_iff t "Requested desktop not found",
  eq_iff t "Signalling failed",
)

-- Bytes end with a zero.
abbrev put : Bytes → Bytes → Bytes
put [] rest = 0 ∷ rest
put (b ∷ bs) rest = suc b ∷ put bs rest

abbrev prepend : ℕ → Option (Bytes × Bytes) → Option (Bytes × Bytes)
prepend b (some (bs, rest)) = some (b ∷ bs, rest)
prepend b _ = none

abbrev take_bytes : Bytes → Option (Bytes × Bytes)
take_bytes [] = none
take_bytes (zero ∷ rest) = some ([], rest)
take_bytes (suc b ∷ rest) = prepend b (take_bytes rest)

take_bytes-put : (bs rest : Bytes) → take_bytes (put bs rest) ≡ some (bs, rest)
take_bytes-put [] rest = refl
take_bytes-put (b ∷ bs) rest = rw (take_bytes-put bs rest)

abbrev pub put₃ : Bytes → Bytes → Bytes → Bytes
put₃ a b c = put a (put b (put c []))

-- What is read is handed to `f`, together with what is left.
abbrev with_bytes {ℓ} :
    {A : Type ℓ} → Option (Bytes × Bytes) → (Bytes → Bytes → Option A) → Option A
with_bytes (some (bs, rest)) f = f bs rest
with_bytes _ f = none

abbrev take₃ {ℓ} : {A : Type ℓ} → Bytes → (Bytes → Bytes → Bytes → A) → Option A
take₃ bs f =
    with_bytes (take_bytes bs)
      λ a r. with_bytes (take_bytes r) λ b q. with_bytes (take_bytes q) λ c p. some (f a b c)

take₃-put₃ {ℓ} :
    {A : Type ℓ} (a b c : Bytes) (f : Bytes → Bytes → Bytes → A)
    → take₃ (put₃ a b c) f ≡ some (f a b c)
take₃-put₃ a b c f =
    rw (take_bytes-put a (put b (put c [])), take_bytes-put b (put c []), take_bytes-put c [])

abbrev with_text : Bytes → (String → HandshakePacket) → Option HandshakePacket
with_text (n ∷ rest) f = Option.map f (code_text n)
with_text [] f = none

abbrev read_packet : Bytes → Option HandshakePacket
read_packet (zero ∷ bs) = with_text bs home_init
read_packet (suc zero ∷ bs) = some (home_init_response accepted)
read_packet (suc (suc zero) ∷ bs) =
    with_text bs (λ t. home_init_response (refused (record { text = t })))
read_packet (suc (suc (suc zero)) ∷ bs) = with_text bs remote_init
read_packet (suc (suc (suc (suc zero))) ∷ bs) = some (remote_init_response accepted)
read_packet (suc (suc (suc (suc (suc zero)))) ∷ bs) =
    with_text bs (λ t. remote_init_response (refused (record { text = t })))
read_packet (suc (suc (suc (suc (suc (suc zero))))) ∷ peer ∷ bs) = take₃ bs (remote_offer peer)
read_packet (suc (suc (suc (suc (suc (suc (suc zero)))))) ∷ peer ∷ bs) =
    take₃ bs (home_answer_success peer)
read_packet (suc (suc (suc (suc (suc (suc (suc (suc zero))))))) ∷ peer ∷ bs) =
    with_text bs (home_answer_failure peer)
read_packet _ = none

abbrev pub write_text : ℕ → Bytes → Option ℕ → Result Bytes
write_text tag fields (some n) = ok (tag ∷ fields ++ n ∷ [])
write_text tag fields _ = err (message "unknown text")

abbrev write_packet : HandshakePacket → Result Bytes
write_packet (home_init t) = write_text 0 [] (text_code t)
write_packet (home_init_response accepted) = ok (1 ∷ [])
write_packet (home_init_response (refused e)) = write_text 2 [] (text_code e.text)
write_packet (remote_init t) = write_text 3 [] (text_code t)
write_packet (remote_init_response accepted) = ok (4 ∷ [])
write_packet (remote_init_response (refused e)) = write_text 5 [] (text_code e.text)
write_packet (remote_offer peer key iv payload) = ok (6 ∷ peer ∷ put₃ key iv payload)
write_packet (home_answer_success peer key iv payload) = ok (7 ∷ peer ∷ put₃ key iv payload)
write_packet (home_answer_failure peer e) = write_text 8 (peer ∷ []) (text_code e)

abbrev pub packet_codec : Codec HandshakePacket
packet_codec = record {
  to_vec = write_packet;
  from_slice = λ bs. or_message (read_packet bs) "not a packet";
}

ok_inj' : {a b : Bytes} → ok a ≡ ok b → b ≡ a
ok_inj' h = ground arith

written_text :
    (o : Option ℕ) (t : String) (tag : ℕ) (fields b : Bytes)
    → text_code t ≡ o
    → write_text tag fields o ≡ ok b
    → (n : ℕ) × (b ≡ tag ∷ fields ++ n ∷ []) × (code_text n ≡ some t)
written_text (some n) t tag fields b e h = (n, ok_inj' h, code_text-text_code t n e)
written_text none t tag fields b e h = cc

read-write :
    (p : HandshakePacket) (b : Bytes) → write_packet p ≡ ok b → packet_codec.from_slice b ≡ ok p
read-write (home_init t) b h =
    let (n, e, c) = written_text (text_code t) t 0 [] b refl h in rw e (rw c)
read-write (home_init_response accepted) b h = rw (ok_inj' h)
read-write (home_init_response (refused m)) b h =
    let (n, e, c) = written_text (text_code m.text) m.text 2 [] b refl h in rw e (rw c)
read-write (remote_init t) b h =
    let (n, e, c) = written_text (text_code t) t 3 [] b refl h in rw e (rw c)
read-write (remote_init_response accepted) b h = rw (ok_inj' h)
read-write (remote_init_response (refused m)) b h =
    let (n, e, c) = written_text (text_code m.text) m.text 5 [] b refl h in rw e (rw c)
read-write (remote_offer peer key iv payload) b h =
    rw (ok_inj' h, take₃-put₃ key iv payload (remote_offer peer))
read-write (home_answer_success peer key iv payload) b h =
    rw (ok_inj' h, take₃-put₃ key iv payload (home_answer_success peer))
read-write (home_answer_failure peer m) b h =
    let (n, e, c) = written_text (text_code m) m 8 (peer ∷ []) b refl h in rw e (rw c)

pub packet_codec-IsCodec : IsCodec packet_codec
packet_codec-IsCodec = record { from_slice-to_vec = read-write }

-- A first packet: the sign and the size of its magic number, its version, and its packet.
abbrev write_int : ℤ → Bytes → Bytes
write_int (pos n) rest = 0 ∷ n ∷ rest
write_int (negsuc n) rest = 1 ∷ n ∷ rest

abbrev write_init : HandshakeInitPacket → Result Bytes
write_init p = write_packet p.packet >>= λ bs. ok (write_int p.magic (p.version ∷ bs))

abbrev init_of : ℤ → ℕ → Result HandshakePacket → Result HandshakeInitPacket
init_of magic version (ok packet) =
    ok (record { magic = magic; version = version; packet = packet })
init_of magic version (err e) = err e
init_of magic version panic = panic

abbrev read_init : Bytes → Result HandshakeInitPacket
read_init (zero ∷ n ∷ version ∷ bs) = init_of (pos n) version (packet_codec.from_slice bs)
read_init (suc zero ∷ n ∷ version ∷ bs) = init_of (negsuc n) version (packet_codec.from_slice bs)
read_init _ = err (message "not a first packet")

abbrev pub init_codec : Codec HandshakeInitPacket
init_codec = record { to_vec = write_init; from_slice = read_init }

read_init-write_int :
    (magic : ℤ) (version : ℕ) (packet : HandshakePacket) (bs : Bytes)
    → packet_codec.from_slice bs ≡ ok packet
    → read_init (write_int magic (version ∷ bs))
      ≡ ok (record { magic = magic; version = version; packet = packet })
read_init-write_int (pos n) version packet bs e = rw e
read_init-write_int (negsuc n) version packet bs e = rw e

pub init_codec-IsCodec : IsCodec init_codec
init_codec-IsCodec = record {
  from_slice-to_vec = λ p b h.
      let (bs, written, e) = >>=-eq-ok (write_packet p.packet) _ h in
      rw (ok_inj' e)
        (read_init-write_int p.magic p.version p.packet bs (read-write p.packet bs written));
}

-- Whether a channel was closed, or lost its receiver.
abbrev is_gone : Sender → List Event → Bool
is_gone tx [] = false
is_gone tx (sent other m ∷ log) = is_gone tx log
is_gone tx (closed other ∷ log) = nat_eq other tx || is_gone tx log
is_gone tx (receiver_dropped other ∷ log) = nat_eq other tx || is_gone tx log

abbrev pub small_env : Env
small_env = record {
  packets = packet_codec;
  init_packets = init_codec;
  try_send = λ log tx. if is_gone tx log then err (message "send failed") else ok tt;
}

abbrev pub hello : HandshakePacket → HandshakeInitPacket
hello packet = record { magic = magic_number; version = version_1_0; packet = packet }
