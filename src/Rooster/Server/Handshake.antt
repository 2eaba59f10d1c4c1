-- ===== src/Rooster/Server/Handshake.antt =====
-- hammer/hammeregg_rooster/src/main.rs: the first packet of a connection, and what is shared.
use hammeregg.Prelude.{
  ℕ, String, ◌≡◌, refl, arith, Option, ok, err, panic, Result, or_message, string_keys,
}
use hammeregg.Core.Packet.{HandshakePacket, home_init, remote_init, init_validate}
use hammeregg.Core.Wire.{Message, deserialize_and_validate_packet}
use hammeregg.Rooster.Task.{Env, Shared, Task, ◌>>=◌, pure, lift, continue}
use hammeregg.Rooster.Home.{home_greet}
use hammeregg.Rooster.Remote.{remote_greet}
use hammeregg.Rooster.Server.Roles.{Roles, Owns}
use hammeregg.Rooster.Server.{
  Connection, home_greeting, remote_greeting, settle, handle_connection, route, handle_home_init,
  handle_remote_init,
}

module _ ⦃env : Env⦄ where
  home_greet-same : (name : String) (s : Shared) → (home_greet name s).1 ≡ s
  unfolding home_greet
  home_greet-same name s = ground arith

  remote_greet-same : (name : String) (s : Shared) → (remote_greet name s).1 ≡ s
  unfolding remote_greet
  remote_greet-same name s = ground arith

-- An action that changes nothing shared, and leaves a connection that owns no channel.
module _ (role : Roles) (n : ℕ) where
  abbrev pub IsHarmless : Task Connection → Type 0
  IsHarmless m = (s : Shared) → ((settle (m s)).1 ≡ s) × Owns role n (settle (m s)).0

  pub lift-IsHarmless :
      {A : Type 0} (r : Result A) (f : A → Task Connection)
      → ((a : A) → IsHarmless (f a))
      → IsHarmless (lift r >>= f)
  lift-IsHarmless (ok a) f h s = h a s
  lift-IsHarmless (err e) f h s = (refl, tt)
  lift-IsHarmless panic f h s = (refl, tt)

  greeting-IsHarmless :
      {A : Type 0} (m : Task A) (f : A → Connection)
      → ((s : Shared) → (m s).1 ≡ s)
      → ((a : A) → Owns role n (f a))
      → IsHarmless (m >>= λ a. pure (f a))
  greeting-IsHarmless {A} m f same free s = go (m s) (same s)
    where
      go :
          (r : Result A × Shared)
          → r.1 ≡ s
          → ((settle (continue r.0 (λ a. pure (f a)) r.1)).1 ≡ s)
            × Owns role n (settle (continue r.0 (λ a. pure (f a)) r.1)).0
      go (ok a, t) e = (e, free a)
      go (err x, t) e = (e, tt)
      go (panic, t) e = (e, tt)

  module _ ⦃env : Env⦄ where
    route-IsHarmless : (p : HandshakePacket) → IsHarmless (route p)
    unfolding route handle_home_init handle_remote_init
    route-IsHarmless (home_init name) =
        greeting-IsHarmless (home_greet name) (home_greeting name) (home_greet-same name) (λ g. tt)
    route-IsHarmless (remote_init name) =
        greeting-IsHarmless (remote_greet name) (remote_greeting name) (remote_greet-same name)
          (λ g. tt)
    route-IsHarmless _ = λ s. (refl, tt)

    -- Neither the first packet nor its answer changes what the tasks share.
    pub handle_connection-IsHarmless :
        (item : Option (Result Message)) → IsHarmless (handle_connection item)
    unfolding handle_connection
    handle_connection-IsHarmless item = lift-IsHarmless (or_message item _) _ λ read.
        lift-IsHarmless read _ λ m.
          lift-IsHarmless (deserialize_and_validate_packet ⦃c = env.init_packets⦄ m) _
            λ p. route-IsHarmless p.packet
