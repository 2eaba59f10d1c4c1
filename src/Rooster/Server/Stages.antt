-- ===== src/Rooster/Server/Stages.antt =====
-- hammer/hammeregg_rooster/src/main.rs: the stages of a connection, from the first packet to the end.
use hammeregg.Prelude.{
  ℕ, ◌≤◌, arith, Option, none, some, Result, ok, err, panic, String, or_message,
}
use hammeregg.Core.Packet.{HandshakePacket, home_init, remote_init, init_validate}
use hammeregg.Core.Wire.{Message, deserialize_and_validate_packet}
use hammeregg.Rooster.Peers.{Sender}
use hammeregg.Rooster.Task.{Env, Shared, Task, ◌>>=◌, ◌>>◌, pure, lift, continue}
use hammeregg.Rooster.Home
use hammeregg.Rooster.Home.{home_packet, home_register, home_greet}
use hammeregg.Rooster.Remote
use hammeregg.Rooster.Remote.{remote_packet, remote_register, remote_greet}
use hammeregg.Rooster.Steps.{home_finished, remote_finished}
use hammeregg.Rooster.Server.{
  Connection, handshaking, home_greeting, remote_greeting, home_serving, remote_serving, ended,
  Input, received, delivered, finished, settle, settle_receiver, handle_connection, route,
  handle_home_init, handle_remote_init, home_greeted, remote_greeted, connection_step,
}

-- How many stages a connection has before it.
abbrev pub stage : Connection → ℕ
stage handshaking = 3
stage (home_greeting name greeting) = 2
stage (remote_greeting name greeting) = 2
stage (home_serving name tx) = 1
stage (remote_serving name id tx) = 1
stage (ended r) = 0

-- An action that leaves a connection with no more stages before it than that.
module _ (k : ℕ) where
  abbrev IsWithin : Task Connection → Type 0
  IsWithin m = (s : Shared) → stage (settle (m s)).0 ≤ k

  IsWithin-bind :
      {A : Type 0} (m : Task A) (f : A → Task Connection)
      → ((a : A) → IsWithin (f a))
      → IsWithin (m >>= f)
  IsWithin-bind {A} m f h s = go (m s)
    where
      go : (r : Result A × Shared) → stage (settle (continue r.0 f r.1)).0 ≤ k
      go (ok a, t) = h a t
      go (err e, t) = omega arith
      go (panic, t) = omega arith

module _ ⦃env : Env⦄ where
  IsWithin-route : (p : HandshakePacket) → IsWithin 2 (route p)
  unfolding route handle_home_init handle_remote_init
  IsWithin-route (home_init name) =
      IsWithin-bind 2 (home_greet name) (λ greeting. pure (home_greeting name greeting))
        λ greeting s. omega arith
  IsWithin-route (remote_init name) =
      IsWithin-bind 2 (remote_greet name) (λ greeting. pure (remote_greeting name greeting))
        λ greeting s. omega arith
  IsWithin-route _ = λ s. omega arith

  IsWithin-handle_connection :
      (item : Option (Result Message)) → IsWithin 2 (handle_connection item)
  unfolding handle_connection
  IsWithin-handle_connection item = IsWithin-bind 2 (lift (or_message item _)) _ λ read.
      IsWithin-bind 2 (lift read) _ λ m.
        IsWithin-bind 2 (lift (deserialize_and_validate_packet ⦃c = env.init_packets⦄ m)) _
          λ p. IsWithin-route p.packet

  IsWithin-home_greeted :
      (name : String) (greeting : Home.Greeting) (d : Result (Unit {0}))
      → IsWithin 1 (home_greeted name greeting d)
  unfolding home_greeted
  IsWithin-home_greeted name (Home.taken m) d =
      IsWithin-bind 1 (lift d) (λ _. pure (ended (ok tt))) λ u s. omega arith
  IsWithin-home_greeted name (Home.free m) d = IsWithin-bind 1 (lift d) _ λ u.
      IsWithin-bind 1 (home_register name) (λ tx. pure (home_serving name tx)) λ tx s. omega arith

  IsWithin-remote_greeted :
      (name : String) (greeting : Remote.Greeting) (d : Result (Unit {0}))
      → IsWithin 1 (remote_greeted name greeting d)
  unfolding remote_greeted
  IsWithin-remote_greeted name (Remote.missing m) d =
      IsWithin-bind 1 (lift d) (λ _. pure (ended (ok tt))) λ u s. omega arith
  IsWithin-remote_greeted name (Remote.present m) d = IsWithin-bind 1 (lift d) _ λ u.
      IsWithin-bind 1 (remote_register name)
        (λ joined. pure (remote_serving name joined.0 joined.1)) λ joined s. omega arith

  served-stage :
      (tx : Sender) (c : Connection) (m : Task Unit) (s : Shared)
      → stage (settle_receiver tx ((m >> pure c) s)).0 ≤ stage c
  served-stage tx c m s = go (m s)
    where
      go :
          (r : Result Unit × Shared)
          → stage (settle_receiver tx (continue r.0 (λ _. pure c) r.1)).0 ≤ stage c
      go (ok u, t) = omega arith
      go (err x, t) = omega arith
      go (panic, t) = omega arith

  -- No step leads back.
  pub connection_step-stage :
      (c : Connection) (input : Input) (s : Shared) → stage (connection_step c input s).0 ≤ stage c
  unfolding connection_step
  connection_step-stage handshaking (received item) s =
      omega (arith, IsWithin-handle_connection (some item) s)
  connection_step-stage handshaking finished s = omega (arith, IsWithin-handle_connection none s)
  connection_step-stage handshaking (delivered d) s = omega arith
  connection_step-stage (home_greeting name g) (delivered d) s =
      omega (arith, IsWithin-home_greeted name g d s)
  connection_step-stage (home_greeting name g) (received item) s = omega arith
  connection_step-stage (home_greeting name g) finished s = omega arith
  connection_step-stage (remote_greeting name g) (delivered d) s =
      omega (arith, IsWithin-remote_greeted name g d s)
  connection_step-stage (remote_greeting name g) (received item) s = omega arith
  connection_step-stage (remote_greeting name g) finished s = omega arith
  connection_step-stage (home_serving name tx) (received item) s =
      served-stage tx (home_serving name tx) (home_packet name item) s
  connection_step-stage (home_serving name tx) (delivered d) s = omega arith
  connection_step-stage (home_serving name tx) finished s =
      rw (home_finished name tx s) (omega arith)
  connection_step-stage (remote_serving name id tx) (received item) s =
      served-stage tx (remote_serving name id tx) (remote_packet name id item) s
  connection_step-stage (remote_serving name id tx) (delivered d) s = omega arith
  connection_step-stage (remote_serving name id tx) finished s =
      rw (remote_finished name id tx s) (omega arith)
  connection_step-stage (ended r) (received item) s = omega arith
  connection_step-stage (ended r) (delivered d) s = omega arith
  connection_step-stage (ended r) finished s = omega arith

  -- The end of the socket ends a task that waits for a packet, so that at most a response is waited
  -- for behind it.
  pub finished-stage :
      (c : Connection) (s : Shared)
      → (stage (connection_step c finished s).0 ≤ 2)
        × (stage c ≤ 1 → stage (connection_step c finished s).0 ≤ 0)
  unfolding connection_step handle_connection
  finished-stage handshaking s = (omega arith, λ low. omega arith)
  finished-stage (home_greeting name g) s = (omega arith, λ low. omega arith)
  finished-stage (remote_greeting name g) s = (omega arith, λ low. omega arith)
  finished-stage (home_serving name tx) s =
      rw (home_finished name tx s) (omega arith, λ low. omega arith)
  finished-stage (remote_serving name id tx) s =
      rw (remote_finished name id tx s) (omega arith, λ low. omega arith)
  finished-stage (ended r) s = (omega arith, λ low. omega arith)

  pub delivered-stage :
      (c : Connection) (d : Result (Unit {0})) (s : Shared)
      → stage c ≤ 2
      → stage (connection_step c (delivered d) s).0 ≤ 1
  unfolding connection_step
  delivered-stage handshaking d s low = omega arith
  delivered-stage (home_greeting name g) d s low = IsWithin-home_greeted name g d s
  delivered-stage (remote_greeting name g) d s low = IsWithin-remote_greeted name g d s
  delivered-stage (home_serving name tx) d s low = omega arith
  delivered-stage (remote_serving name id tx) d s low = omega arith
  delivered-stage (ended r) d s low = omega arith
