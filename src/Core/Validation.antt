-- ===== src/Core/Validation.antt =====
-- hammer/hammeregg_core/src/lib.rs: which first packets the handshake accepts.
use hammeregg.Prelude.{
  ℕ, String, ◌≡◌, ◌≢◌, ◌↔◌, Bool, true, false, List, [], ◌∷◌, arith, invalid, ok, err, ◌||◌, str_eq,
}
use hammeregg.Core.Packet.{
  HandshakePacket, HandshakeInitPacket, home_init, remote_init, magic_number, version_1_0,
  validate_init, new,
}

-- The packet is a HomeInit or a RemoteInit.
abbrev pub IsInit : HandshakePacket → Type 0
IsInit (home_init name) = Unit
IsInit (remote_init name) = Unit
IsInit _ = ⊥

abbrev pub IsValid : HandshakeInitPacket → Type 0
IsValid p = (p.magic ≡ magic_number) × (p.version ≡ version_1_0) × IsInit p.packet

-- A first packet is valid exactly when its magic number and its version are the program's and it
-- holds a HomeInit or a RemoteInit.
pub validate_init_iff : (p : HandshakeInitPacket) → (validate_init p ≡ ok tt) ↔ IsValid p
unfolding validate_init
validate_init_iff p = ground arith

-- The constructor of first packets returns a packet exactly when that is the packet with the
-- program's magic number and the given version and contents, and it is valid.
pub new_iff :
    (version : ℕ) (packet : HandshakePacket) (p : HandshakeInitPacket)
    → (new version packet ≡ ok p)
      ↔ ((p ≡ record { magic = magic_number; version = version; packet = packet }) × IsValid p)
unfolding new
new_iff version packet p = ground arith

-- Whether the errors name a field.
abbrev pub reports : String → List (String × String) → Bool
reports name [] = false
reports name ((f, text) ∷ rest) = str_eq f name || reports name rest

-- The errors of a rejected first packet name exactly the fields that are wrong.
pub validate_init-reports :
    (p : HandshakeInitPacket) (errors : List (String × String))
    → validate_init p ≡ err (invalid errors)
    → ((reports "magic" errors ≡ true) ↔ (p.magic ≢ magic_number))
      × ((reports "version" errors ≡ true) ↔ (p.version ≢ version_1_0))
      × ((reports "packet" errors ≡ true) ↔ ¬ IsInit p.packet)
unfolding validate_init
validate_init-reports p errors h = ground arith
