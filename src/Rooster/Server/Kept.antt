-- ===== src/Rooster/Server/Kept.antt =====
-- hammer/hammeregg_rooster/src/main.rs: the steps of a connection, and the roles of the channels.
use hammeregg.Prelude.{
  ℕ, ◌≤◌, String, ◌≡◌, refl, sym, subst, ap, arith, true, false, none, some, ok, err, panic, Result,
  string_keys, Option-cases, inl, inr,
}
use hammeregg.Prelude.HashMap
use hammeregg.Core.Packet.{init_validate}
use hammeregg.Core.Wire.{Message, IsCodec}
use hammeregg.Rooster.Peers.{Sender}
use hammeregg.Rooster.Task.{Env, Shared, Task, ◌>>◌, pure, continue, receiver_dropped}
use hammeregg.Rooster.Home
use hammeregg.Rooster.Home.{home_greet, home_register, home_packet, home_disconnect}
use hammeregg.Rooster.Home.Disconnect.{home_disconnect-next_channel}
use hammeregg.Rooster.Remote
use hammeregg.Rooster.Remote.{remote_greet, remote_register, remote_packet, remote_disconnect}
use hammeregg.Rooster.Remote.Register.{remote_register_lem, remote_register-unknown}
use hammeregg.Rooster.Server.Roles.{Roles, IsSorted, Owns, Agree, update, Agree-update}
use hammeregg.Rooster.Server.Pieces.{
  home_disconnect-IsSorted, remote_disconnect-IsSorted, home_packet-IsSorted,
  remote_packet-IsSorted, home_register-IsSorted, remote_register-IsSorted, bump-IsSorted,
  log-IsSorted,
}
use hammeregg.Rooster.Server.Handshake.{lift-IsHarmless, handle_connection-IsHarmless}
use hammeregg.Rooster.Steps.{home_finished, remote_finished}
use hammeregg.Rooster.Server.{
  Connection, handshaking, home_greeting, remote_greeting, home_serving, remote_serving, ended,
  Input, received, delivered, finished, settle, settle_receiver, home_greeted, remote_greeted,
  connection_step,
}

module _ ⦃env : Env⦄ where
  -- What a step of one connection may do to the roles: the roles of the channels so far stay.
  abbrev pub Keeps : Roles → Shared → Connection × Shared → Type 0
  Keeps role s r =
      (role' : Roles) × Agree role role' s.next_channel
      × (s.next_channel ≤ r.1.next_channel)
      × IsSorted role' r.1
      × Owns role' r.1.next_channel r.0

  Keeps-same :
      (role : Roles) (s : Shared) (r : Connection × Shared)
      → IsSorted role s
      → r.1 ≡ s
      → Owns role s.next_channel r.0
      → Keeps role s r
  Keeps-same role s r v e o = (
    role,
    λ k h. refl,
    omega (arith, ap (λ (t : Shared). t.next_channel) e),
    subst (IsSorted role) (sym e) v,
    subst (λ (t : Shared). Owns role t.next_channel r.0) (sym e) o,
  )

module _ ⦃env : Env⦄ (role : Roles) (s : Shared) where
  -- A task that owns its channel's receiver, after an action that makes no channels.
  receiver-Keeps :
      (tx : Sender) (c : Connection) (m : Task Unit)
      → IsSorted role (m s).1
      → (m s).1.next_channel ≡ s.next_channel
      → Owns role s.next_channel c
      → Keeps role s (settle_receiver tx ((m >> pure c) s))
  receiver-Keeps tx c m v e o = go (m s) v e
    where
      go :
          (r : Result Unit × Shared)
          → IsSorted role r.1
          → r.1.next_channel ≡ s.next_channel
          → Keeps role s (settle_receiver tx (continue r.0 (λ _. pure c) r.1))
      go (ok u, t) w q = (role, λ k h. refl, omega arith, w, subst (λ n. Owns role n c) (sym q) o)
      go (err x, t) w q =
          (role, λ k h. refl, omega arith, log-IsSorted role t w (receiver_dropped tx) tt, tt)
      go (panic, t) w q =
          (role, λ k h. refl, omega arith, log-IsSorted role t w (receiver_dropped tx) tt, tt)

  home_packet-next_channel :
      (name : String) (item : Result Message)
      → (home_packet name item s).1.next_channel ≡ s.next_channel
  unfolding home_packet
  home_packet-next_channel name item = ground arith

  remote_packet-next_channel :
      (name : String) (id : ℕ) (item : Result Message)
      → (remote_packet name id item s).1.next_channel ≡ s.next_channel
  unfolding remote_packet
  remote_packet-next_channel name id item = ground arith

  remote_disconnect-next_channel :
      (name : String) (id : ℕ) → (remote_disconnect name id s).1.next_channel ≡ s.next_channel
  unfolding remote_disconnect
  remote_disconnect-next_channel name id = ground arith

module _ ⦃env : Env⦄ (law : IsCodec env.packets) (role : Roles) (s : Shared)
    (v : IsSorted role s) where
  harmless : (r : Connection × Shared) → (r.1 ≡ s) × Owns role s.next_channel r.0 → Keeps role s r
  harmless r h = Keeps-same role s r v h.0 h.1

  home_greeted-Keeps :
      (name : String) (g : Home.Greeting) (delivery : Result Unit)
      → Keeps role s (settle (home_greeted name g delivery s))
  unfolding home_greeted
  home_greeted-Keeps name (Home.taken m) delivery = harmless _ (
      lift-IsHarmless role s.next_channel delivery (λ _. pure (ended (ok tt))) (λ _ t. (refl, tt))
        s)
  home_greeted-Keeps name (Home.free m) (ok u) = (
    update role s.next_channel true,
    Agree-update role s.next_channel true,
    omega arith,
    home_register-IsSorted role name s v,
    (omega arith, ground arith),
  )
  home_greeted-Keeps name (Home.free m) (err e) = harmless (ended (err e), s) (refl, tt)
  home_greeted-Keeps name (Home.free m) panic = harmless (ended panic, s) (refl, tt)

  remote_greeted-Keeps :
      (name : String) (g : Remote.Greeting) (delivery : Result Unit)
      → Keeps role s (settle (remote_greeted name g delivery s))
  unfolding remote_greeted
  remote_greeted-Keeps name (Remote.missing m) delivery = harmless _ (
      lift-IsHarmless role s.next_channel delivery (λ _. pure (ended (ok tt))) (λ _ t. (refl, tt))
        s)
  remote_greeted-Keeps name (Remote.present m) (ok u) =
      elim (Option-cases (HashMap.get name s.desktops)) [
        | inl unknown ↦ rw (remote_register-unknown name s unknown) (
          update role s.next_channel false,
          Agree-update role s.next_channel false,
          omega arith,
          bump-IsSorted role s v false,
          tt,
        )
        | inr (d, known) ↦ rw (remote_register_lem name s d known) (
          update role s.next_channel false,
          Agree-update role s.next_channel false,
          omega arith,
          remote_register-IsSorted role name s v d known,
          (omega arith, ground arith),
        )
      ]
  remote_greeted-Keeps name (Remote.present m) (err e) = harmless (ended (err e), s) (refl, tt)
  remote_greeted-Keeps name (Remote.present m) panic = harmless (ended panic, s) (refl, tt)

  -- Every step of every connection keeps the roles.
  pub connection_step-Keeps :
      (c : Connection) (input : Input)
      → Owns role s.next_channel c
      → Keeps role s (connection_step c input s)
  unfolding connection_step
  connection_step-Keeps handshaking (received item) o =
      harmless _ (handle_connection-IsHarmless role s.next_channel (some item) s)
  connection_step-Keeps handshaking finished o =
      harmless _ (handle_connection-IsHarmless role s.next_channel none s)
  connection_step-Keeps (home_greeting name g) (delivered d) o = home_greeted-Keeps name g d
  connection_step-Keeps (remote_greeting name g) (delivered d) o = remote_greeted-Keeps name g d
  connection_step-Keeps (home_serving name tx) (received item) o =
      receiver-Keeps role s tx (home_serving name tx) (home_packet name item)
        (home_packet-IsSorted role name item s v) (home_packet-next_channel role s name item) o
  connection_step-Keeps (home_serving name tx) finished o = rw (home_finished name tx s) (
    role,
    λ k h. refl,
    omega (arith, home_disconnect-next_channel name s),
    log-IsSorted role _ (home_disconnect-IsSorted role name s v) (receiver_dropped tx) tt,
    tt,
  )
  connection_step-Keeps (remote_serving name id tx) (received item) o =
      receiver-Keeps role s tx (remote_serving name id tx) (remote_packet name id item)
        (remote_packet-IsSorted role law name id item s v)
        (remote_packet-next_channel role s name id item) o
  connection_step-Keeps (remote_serving name id tx) finished o = rw (remote_finished name id tx s) (
    role,
    λ k h. refl,
    omega (arith, remote_disconnect-next_channel role s name id),
    log-IsSorted role _ (remote_disconnect-IsSorted role name id s v) (receiver_dropped tx) tt,
    tt,
  )
  connection_step-Keeps c input o = harmless (c, s) (refl, o)
