-- ===== src/Rooster/Server/Roles.antt =====
-- hammer/hammeregg_rooster/src/main.rs: every channel has a role, the channel of a desktop or that of
-- a remote, and what is in use fits it.
use hammeregg.Prelude.{
  ℕ, ◌≤◌, ◌<◌, String, List, [], ◌∷◌, ◌≡◌, sym, ◌∙◌, subst, arith, Bool, true, false, some, ok,
  nat_eq, if◌then◌else◌, string_keys, nat_keys, All,
}
use hammeregg.Prelude.HashMap
use hammeregg.Core.Packet.{HandshakePacket, remote_offer, home_answer_success, home_answer_failure}
use hammeregg.Core.Wire.{deserialize_packet}
use hammeregg.Rooster.Peers.{Sender, DesktopAndPeers, get_peer}
use hammeregg.Rooster.Task.{Env, Shared, Event, sent, closed, receiver_dropped}
use hammeregg.Rooster.Server.{Connection, home_serving, remote_serving}

-- `true` is the role of a desktop's channel.
abbrev pub Roles : Type 0
Roles = Sender → Bool

-- Desktops are sent offers, and remotes are sent answers.
abbrev pub Fits : Bool → HandshakePacket → Type 0
Fits true (remote_offer peer key iv payload) = Unit
Fits true _ = ⊥
Fits false (home_answer_success peer key iv payload) = Unit
Fits false (home_answer_failure peer error) = Unit
Fits false _ = ⊥

-- A channel that was made and has the role.
abbrev pub Has : Roles → ℕ → Bool → Sender → Type 0
Has role n b tx = (tx < n) × (role tx ≡ b)

module _ ⦃env : Env⦄ where
  -- What was sent to a channel is a packet that fits its role.
  abbrev pub IsRouted : Roles → ℕ → Event → Type 0
  IsRouted role n (sent tx m) =
      (packet : HandshakePacket) × (tx < n)
      × (deserialize_packet ⦃c = env.packets⦄ m ≡ ok packet)
      × Fits (role tx) packet
  IsRouted role n (closed tx) = Unit
  IsRouted role n (receiver_dropped tx) = Unit

  pub record IsSorted (role : Roles) (s : Shared) : Type 0 where
    pub homes :
        (name : String) (d : DesktopAndPeers)
        → HashMap.get name s.desktops ≡ some d
        → Has role s.next_channel true d.desktop_tx
    pub peers :
        (name : String) (d : DesktopAndPeers) (id : ℕ) (tx : Sender)
        → HashMap.get name s.desktops ≡ some d
        → get_peer d id ≡ some tx
        → Has role s.next_channel false tx
    pub sends : All (IsRouted role s.next_channel) s.log

-- The channel that a task reads from has the role of the task.
abbrev pub Owns : Roles → ℕ → Connection → Type 0
Owns role n (home_serving name tx) = Has role n true tx
Owns role n (remote_serving name id tx) = Has role n false tx
Owns role n _ = Unit

-- The roles of the channels below `n` are the same.
abbrev pub Agree : Roles → Roles → ℕ → Type 0
Agree role role' n = (k : ℕ) → k < n → role' k ≡ role k

abbrev pub update : Roles → ℕ → Bool → Roles
update role n b k = if nat_eq k n then b else role k

pub Agree-update : (role : Roles) (n : ℕ) (b : Bool) → Agree role (update role n b) n
Agree-update role n b k h = ground arith

module _ {role role' : Roles} {n n' : ℕ} (more : n ≤ n') (agree : Agree role role' n) where
  pub Has-mono : (b : Bool) (tx : Sender) → Has role n b tx → Has role' n' b tx
  Has-mono b tx (lt, e) = (omega arith, agree tx lt ∙ e)

  pub Owns-mono : (c : Connection) → Owns role n c → Owns role' n' c
  Owns-mono (home_serving name tx) o = Has-mono true tx o
  Owns-mono (remote_serving name id tx) o = Has-mono false tx o
  Owns-mono _ o = tt

  pub All-Owns-mono : (cs : List Connection) → All (Owns role n) cs → All (Owns role' n') cs
  All-Owns-mono [] o = tt
  All-Owns-mono (c ∷ cs) o = (Owns-mono c o.0, All-Owns-mono cs o.1)

  module _ ⦃env : Env⦄ where
    IsRouted-mono : (e : Event) → IsRouted role n e → IsRouted role' n' e
    IsRouted-mono (sent tx m) (packet, lt, read, fits) =
        (packet, omega arith, read, subst (λ b. Fits b packet) (sym (agree tx lt)) fits)
    IsRouted-mono (closed tx) r = tt
    IsRouted-mono (receiver_dropped tx) r = tt

    pub All-IsRouted-mono :
        (es : List Event) → All (IsRouted role n) es → All (IsRouted role' n') es
    All-IsRouted-mono [] r = tt
    All-IsRouted-mono (e ∷ es) r = (IsRouted-mono e r.0, All-IsRouted-mono es r.1)
