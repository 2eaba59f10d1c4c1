-- ===== src/Rooster/Races/Failure.antt =====
-- hammer/hammeregg_rooster/src/main.rs: a desktop whose task ends by an error.
use mathlib.Core.List.{Memᴰ}
use hammeregg.Prelude.{String, ◌≡◌, refl, Result, ok, err, Error, some, string_keys, nat_keys}
use hammeregg.Prelude.HashMap
use hammeregg.Prelude.HashMap.{get-insert, get-remove}
use hammeregg.Core.Packet.{init_validate}
use hammeregg.Core.Wire.{Message, serialize_packet}
use hammeregg.Rooster.Peers.{Sender, DesktopAndPeers}
use hammeregg.Rooster.Task.{Env, Shared, receiver_dropped}
use hammeregg.Rooster.Home.{taken, home_packet, home_greet}
use hammeregg.Rooster.Home.Greet.{name_taken, home_greet-taken}
use hammeregg.Rooster.Home.Relay.{home_packet-failure}
use hammeregg.Rooster.Server.{home_serving, ended, received, connection_step}

module _ ⦃env : Env⦄ where
  -- When a packet of a desktop that is in the map fails, its task ends with that error at once,
  -- the entry of the map stays although the receiver of its channel is gone, and the next desktop
  -- of that name is answered that the name is taken.
  pub failed_home_keeps_name :
      (name : String) (tx : Sender) (item : Result Message) (s : Shared) (d : DesktopAndPeers)
      (e : Error) (refusal : Message)
      → (home_packet name item s).0 ≡ err e
      → HashMap.get name s.desktops ≡ some d
      → serialize_packet ⦃c = env.packets⦄ name_taken ≡ ok refusal
      → let (c, t) = connection_step (home_serving name tx) (received item) s in
        (c ≡ ended (err e))
        × (HashMap.get name t.desktops ≡ some d)
        × Memᴰ (receiver_dropped tx) t.log
        × (home_greet name t ≡ (ok (taken refusal), t))
  unfolding connection_step
  failed_home_keeps_name name tx item s d e refusal fails found written =
      rw (fails, home_packet-failure name item s (λ h. cc))
        (refl, found, Memᴰ.head refl, home_greet-taken name _ refusal d found written)
