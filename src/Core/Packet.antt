-- ===== src/Core/Packet.antt =====
-- hammer/hammeregg_core/src/lib.rs: handshake packets and the validation of the first of them.
use hammeregg.Prelude.{
  ℕ, String, List, [], ◌∷◌, ◌++◌, ◌==◌, if◌then◌else◌, invalid, Result, ok, err, ◌>>◌,
}
use hammeregg.Prelude.Int.{ℤ, as_i64, int_keys}
use hammeregg.Prelude.{nat_keys}

abbrev pub default_hammeregg_port : ℕ
default_hammeregg_port = 7269

abbrev pub magic_number : ℤ
magic_number = as_i64 0xf09f94a8f09fa59a

abbrev pub version_1_0 : ℕ
version_1_0 = 0x00010000

abbrev pub Bytes : Type 0
Bytes = List ℕ

-- The wrapper of a text; `Display` prints the text.
pub record ErrorMsg : Type 0 where
  pub text : String

-- `Result<(), ErrorMsg>` as a field of a packet.
pub data Response : Type 0 where
  accepted : Response
  refused : ErrorMsg → Response

pub data HandshakePacket : Type 0 where
  home_init : String → HandshakePacket
  home_init_response : Response → HandshakePacket
  remote_init : String → HandshakePacket
  remote_init_response : Response → HandshakePacket
  remote_offer : ℕ → Bytes → Bytes → Bytes → HandshakePacket
  home_answer_success : ℕ → Bytes → Bytes → Bytes → HandshakePacket
  home_answer_failure : ℕ → String → HandshakePacket

pub record HandshakeInitPacket : Type 0 where
  pub magic : ℤ
  pub version : ℕ
  pub packet : HandshakePacket

-- A validator's result: the message of its `ValidationError`, or none.
abbrev pub Check : Type 0
Check = List String

validate_magic : ℤ → Check
validate_magic magic = if magic == magic_number then [] else "Invalid magic number!" ∷ []

validate_version : ℕ → Check
validate_version version = if version == version_1_0 then [] else "Unsupported version!" ∷ []

validate_packet : HandshakePacket → Check
validate_packet (home_init home_name) = []
validate_packet (remote_init home_name) = []
validate_packet _ = "Init packet contents must be either HomeInit or RemoteInit" ∷ []

-- One entry of the `ValidationErrors` for each message about a field.
abbrev field : String → Check → List (String × String)
field name [] = []
field name (text ∷ rest) = (name, text) ∷ field name rest

abbrev collect : List (String × String) → Result (Unit {0})
collect [] = ok tt
collect (e ∷ es) = err (invalid (e ∷ es))

-- The trait `Validate`.
pub record Validate (P : Type 0) : Type 0 where
  pub validate : P → Result (Unit {0})

-- What `#[derive(Validate)]` makes of the attributes: every field is checked, and the errors of
-- all fields are reported together.
unfoldable pub validate_init : HandshakeInitPacket → Result (Unit {0})
unfolding validate_magic validate_version validate_packet
validate_init p = collect (
    field "magic" (validate_magic p.magic)
    ++ (field "version" (validate_version p.version) ++ field "packet" (validate_packet p.packet)))

instance abbrev pub init_validate : Validate HandshakeInitPacket
init_validate = record { validate = validate_init }

-- `HandshakeInitPacket::new`
unfoldable pub new : ℕ → HandshakePacket → Result HandshakeInitPacket
unfolding validate_init
new version packet = do
  let p : HandshakeInitPacket = record { magic = magic_number; version = version; packet = packet }
  validate_init p
  ok p
