-- ===== src/Rooster/Directory/Refines.antt =====
-- hammer/hammeregg_rooster/src/main.rs: the server does to its map what its connections do to the
-- directory.
use hammeregg.Prelude.{
  ℕ, String, ◌≡◌, refl, sym, ap, subst, Option, none, some, Option-cases, inl, inr, string_keys,
  nat_keys, ok, err, panic, Result, true,
}
use hammeregg.Prelude.HashMap
use hammeregg.Prelude.HashMap.{get-insert}
use hammeregg.Core.Wire.{Message}
use hammeregg.Rooster.Peers.{Sender}
use hammeregg.Rooster.Task.{Env, Shared, Task, ◌>>◌, pure, continue}
use hammeregg.Rooster.Home
use hammeregg.Rooster.Home.{home_register, home_packet, home_disconnect}
use hammeregg.Rooster.Remote
use hammeregg.Rooster.Remote.{remote_register, remote_packet, remote_disconnect}
use hammeregg.Rooster.Remote.Register.{remote_register_lem, remote_register-unknown}
use hammeregg.Rooster.Server.Handshake.{handle_connection-IsHarmless}
use hammeregg.Rooster.Steps.{home_finished, remote_finished}
use hammeregg.Rooster.Server.{
  Connection, handshaking, home_greeting, remote_greeting, home_serving, remote_serving, ended,
  Input, received, delivered, finished, settle, settle_receiver, home_greeted, remote_greeted,
  connection_step, handle_connection,
}
use hammeregg.Rooster.Directory.{directory_after, directory_of}
use hammeregg.Rooster.Directory.Pieces.{
  home_packet-desktops, remote_packet-desktops, unregisters-home_disconnect,
  leaves-remote_disconnect, registers-home_register, joins-insert_peer, same_map,
}

-- The step of a connection does to the directory what the specification says.
abbrev Refines : Connection → Input → Shared → Connection × Shared → Type 0
Refines c input s (c', s') = directory_of s' ≡ directory_after c input c' (directory_of s)

module _ ⦃env : Env⦄ where
  -- A packet changes nothing but the channels.
  served-Refines :
      (tx : Sender) (c : Connection) (m : Task Unit) (s : Shared)
      → (m s).1.desktops ≡ s.desktops
      → directory_of (settle_receiver tx ((m >> pure c) s)).1 ≡ directory_of s
  served-Refines tx c m s e = go (m s) e
    where
      go :
          (r : Result Unit × Shared)
          → r.1.desktops ≡ s.desktops
          → directory_of (settle_receiver tx (continue r.0 (λ _. pure c) r.1)).1 ≡ directory_of s
      go (ok u, t) e = same_map s t e
      go (err x, t) e = same_map s t e
      go (panic, t) e = same_map s t e

  home_greeting-Refines :
      (name : String) (greeting : Home.Greeting) (delivery : Result (Unit {0})) (s : Shared)
      → Refines
          (home_greeting name greeting)
          (delivered delivery)
          s
          (connection_step (home_greeting name greeting) (delivered delivery) s)
  unfolding connection_step home_greeted home_register
  home_greeting-Refines name (Home.taken m) (ok u) s = refl
  home_greeting-Refines name (Home.taken m) (err e) s = refl
  home_greeting-Refines name (Home.taken m) panic s = refl
  home_greeting-Refines name (Home.free m) (ok u) s = registers-home_register name s
  home_greeting-Refines name (Home.free m) (err e) s = refl
  home_greeting-Refines name (Home.free m) panic s = refl

  -- The step, with what the registration comes to.
  abbrev remote_joined-Refines :
      String → Message → Unit {0} → Shared → Result (ℕ × Sender) × Shared → Type 0
  remote_joined-Refines name m u s r =
      Refines (remote_greeting name (Remote.present m)) (delivered (ok u)) s
        (settle (continue r.0 (λ joined. pure (remote_serving name joined.0 joined.1)) r.1))

  remote_greeting-Refines :
      (name : String) (greeting : Remote.Greeting) (delivery : Result (Unit {0})) (s : Shared)
      → Refines
          (remote_greeting name greeting)
          (delivered delivery)
          s
          (connection_step (remote_greeting name greeting) (delivered delivery) s)
  unfolding connection_step remote_greeted
  remote_greeting-Refines name (Remote.missing m) (ok u) s = refl
  remote_greeting-Refines name (Remote.missing m) (err e) s = refl
  remote_greeting-Refines name (Remote.missing m) panic s = refl
  remote_greeting-Refines name (Remote.present m) (ok u) s =
      elim (Option-cases (HashMap.get name s.desktops)) [
        | inl unknown ↦
            subst (remote_joined-Refines name m u s) (sym (remote_register-unknown name s unknown))
              refl
        | inr (d, known) ↦
            subst (remote_joined-Refines name m u s) (sym (remote_register_lem name s d known))
              (joins-insert_peer name d s known)
      ]
  remote_greeting-Refines name (Remote.present m) (err e) s = refl
  remote_greeting-Refines name (Remote.present m) panic s = refl

  handshaking-Refines :
      (item : Option (Result Message)) (s : Shared)
      → directory_of (settle (handle_connection item s)).1 ≡ directory_of s
  handshaking-Refines item s =
      ap directory_of (handle_connection-IsHarmless (λ tx. true) 0 item s).0

  home_serving-finished :
      (name : String) (tx : Sender) (s : Shared)
      → Refines
          (home_serving name tx)
          finished
          s
          (connection_step (home_serving name tx) finished s)
  home_serving-finished name tx s =
      subst (Refines (home_serving name tx) finished s) (sym (home_finished name tx s))
        (unregisters-home_disconnect name s)

  remote_serving-finished :
      (name : String) (id : ℕ) (tx : Sender) (s : Shared)
      → Refines
          (remote_serving name id tx)
          finished
          s
          (connection_step (remote_serving name id tx) finished s)
  remote_serving-finished name id tx s =
      subst (Refines (remote_serving name id tx) finished s) (sym (remote_finished name id tx s))
        (leaves-remote_disconnect name id s)

  -- Every step of a connection, wherever the connection is and whatever the step brings, does to
  -- the directory that the map stands for, whatever the order of its entries, what the
  -- specification says: a desktop registers and a remote joins under the next id when they begin
  -- to be served, they go when they are finished, and nothing else changes it.
  pub connection_step-refines :
      (c : Connection) (input : Input) (s : Shared)
      → directory_of (connection_step c input s).1
        ≡ directory_after c input (connection_step c input s).0 (directory_of s)
  unfolding connection_step
  connection_step-refines handshaking (received item) s = handshaking-Refines (some item) s
  connection_step-refines handshaking finished s = handshaking-Refines none s
  connection_step-refines handshaking (delivered d) s = refl
  connection_step-refines (home_greeting name g) (delivered d) s = home_greeting-Refines name g d s
  connection_step-refines (home_greeting name g) (received item) s = refl
  connection_step-refines (home_greeting name g) finished s = refl
  connection_step-refines (remote_greeting name g) (delivered d) s =
      remote_greeting-Refines name g d s
  connection_step-refines (remote_greeting name g) (received item) s = refl
  connection_step-refines (remote_greeting name g) finished s = refl
  connection_step-refines (home_serving name tx) (received item) s =
      served-Refines tx (home_serving name tx) (home_packet name item) s
        (home_packet-desktops name item s)
  connection_step-refines (home_serving name tx) (delivered d) s = refl
  connection_step-refines (home_serving name tx) finished s = home_serving-finished name tx s
  connection_step-refines (remote_serving name id tx) (received item) s =
      served-Refines tx (remote_serving name id tx) (remote_packet name id item) s
        (remote_packet-desktops name id item s)
  connection_step-refines (remote_serving name id tx) (delivered d) s = refl
  connection_step-refines (remote_serving name id tx) finished s =
      remote_serving-finished name id tx s
  connection_step-refines (ended r) (received item) s = refl
  connection_step-refines (ended r) (delivered d) s = refl
  connection_step-refines (ended r) finished s = refl
