-- ===== src/Rooster/Server.antt =====
-- hammer/hammeregg_rooster/src/main.rs: `handle_connection` as a state machine whose steps are the
-- pieces of the handlers, and the server as any interleaving of its connections.
pub mod Roles
pub mod Pieces
pub mod Handshake
pub mod Kept
pub mod Routing
pub mod Stages
pub mod Ending
use hammeregg.Prelude.{
  ℕ, zero, suc, String, List, [], ◌∷◌, ◌++◌, message, Result, ok, err, panic, or_message, Option,
  none, some,
}
use hammeregg.Core.Packet.{HandshakePacket, home_init, remote_init, init_validate}
use hammeregg.Core.Wire.{Message, deserialize_and_validate_packet}
use hammeregg.Rooster.Peers.{Sender}
use hammeregg.Rooster.Task.{
  Env, Shared, Task, ◌>>=◌, ◌>>◌, pure, lift, raise, modify, drop_receiver,
}
use hammeregg.Rooster.Home
use hammeregg.Rooster.Home.{home_greet, home_register, home_packet, home_disconnect}
use hammeregg.Rooster.Remote
use hammeregg.Rooster.Remote.{remote_greet, remote_register, remote_packet, remote_disconnect}

-- Where a connection's task waits.
pub data Connection : Type 0 where
  -- for the first packet
  handshaking : Connection
  -- for the response to be sent
  home_greeting : String → Home.Greeting → Connection
  remote_greeting : String → Remote.Greeting → Connection
  -- for the next packet, or the end of either direction
  home_serving : String → Sender → Connection
  remote_serving : String → ℕ → Sender → Connection
  -- the task's result, which is only logged
  ended : Result (Unit {0}) → Connection

-- What a wait ends with.
pub data Input : Type 0 where
  -- the next item of the socket
  received : Result Message → Input
  -- the response was sent, or not
  delivered : Result (Unit {0}) → Input
  -- the socket has no more items, or the channel is at its end
  finished : Input

-- The end of a task by an error or a panic.
abbrev pub settle : Result Connection × Shared → Connection × Shared
settle (ok c, s) = (c, s)
settle (err e, s) = (ended (err e), s)
settle (panic, s) = (ended panic, s)

-- The end of a task that owns the receiver of a channel.
abbrev pub settle_receiver : Sender → Result Connection × Shared → Connection × Shared
settle_receiver tx (ok c, s) = (c, s)
settle_receiver tx (err e, s) = (ended (err e), drop_receiver tx s)
settle_receiver tx (panic, s) = (ended panic, drop_receiver tx s)

module _ ⦃env : Env⦄ where
  unfoldable pub handle_home_init : String → Task Connection
  unfolding home_greet
  handle_home_init home_name = do
    greeting ← home_greet home_name
    pure (home_greeting home_name greeting)

  unfoldable pub handle_remote_init : String → Task Connection
  unfolding remote_greet
  handle_remote_init home_name = do
    greeting ← remote_greet home_name
    pure (remote_greeting home_name greeting)

  unfoldable pub route : HandshakePacket → Task Connection
  unfolding handle_home_init handle_remote_init
  route (home_init home_name) = handle_home_init home_name
  route (remote_init home_name) = handle_remote_init home_name
  route _ = raise (message "Handshake failed: client did not send a valid HandshakeInitPacket")

  -- The first packet of a connection; `none` is the end of the socket.
  unfoldable pub handle_connection : Option (Result Message) → Task Connection
  handle_connection item = do
    read ← lift (or_message item "Handshake failed: could not read packet")
    m ← lift read
    packet ← lift (deserialize_and_validate_packet ⦃c = env.init_packets⦄ m)
    route packet.packet

  unfoldable pub home_greeted : String → Home.Greeting → Result (Unit {0}) → Task Connection
  unfolding home_register
  home_greeted home_name (Home.taken m) delivery = do lift delivery; pure (ended (ok tt))
  home_greeted home_name (Home.free m) delivery = do
    lift delivery
    tx ← home_register home_name
    pure (home_serving home_name tx)

  unfoldable pub remote_greeted : String → Remote.Greeting → Result (Unit {0}) → Task Connection
  unfolding remote_register
  remote_greeted home_name (Remote.missing m) delivery = do lift delivery; pure (ended (ok tt))
  remote_greeted home_name (Remote.present m) delivery = do
    lift delivery
    joined ← remote_register home_name
    pure (remote_serving home_name joined.0 joined.1)

  -- One wait of a connection ends. An input that it does not wait for changes nothing.
  unfoldable pub connection_step : Connection → Input → Shared → Connection × Shared
  connection_step handshaking (received item) s = settle (handle_connection (some item) s)
  connection_step handshaking finished s = settle (handle_connection none s)
  connection_step (home_greeting home_name greeting) (delivered delivery) s =
      settle (home_greeted home_name greeting delivery s)
  connection_step (remote_greeting home_name greeting) (delivered delivery) s =
      settle (remote_greeted home_name greeting delivery s)
  connection_step (home_serving home_name tx) (received item) s =
      settle_receiver tx ((home_packet home_name item >> pure (home_serving home_name tx)) s)
  connection_step (home_serving home_name tx) finished s =
      settle_receiver tx
        ((do home_disconnect home_name; modify (drop_receiver tx); pure (ended (ok tt))) s)
  connection_step (remote_serving home_name id tx) (received item) s =
      settle_receiver tx
        ((remote_packet home_name id item >> pure (remote_serving home_name id tx)) s)
  connection_step (remote_serving home_name id tx) finished s =
      settle_receiver tx
        ((do remote_disconnect home_name id; modify (drop_receiver tx); pure (ended (ok tt))) s)
  connection_step c _ s = (c, s)

-- The server: what the tasks share, and the connections in the order of their arrival.
pub record System : Type 0 where
  pub shared : Shared
  pub connections : List Connection

abbrev pub start : System
start = record { shared = record { desktops = []; next_channel = 0; log = [] }; connections = [] }

-- A client arrives, or one connection's wait ends. The list of actions is the schedule.
pub data Action : Type 0 where
  accept : Action
  wake : ℕ → Input → Action

module _ ⦃env : Env⦄ where
  -- The connection at a position makes its step; past the end nothing happens.
  unfoldable pub wake_at : ℕ → Input → Shared → List Connection → Shared × List Connection
  wake_at n input s [] = (s, [])
  wake_at zero input s (c ∷ cs) = let (c', t) = connection_step c input s in (t, c' ∷ cs)
  wake_at (suc n) input s (c ∷ cs) = let (t, cs') = wake_at n input s cs in (t, c ∷ cs')

  unfoldable pub system_step : System → Action → System
  system_step y accept = record y { connections = y.connections ++ handshaking ∷ [] }
  system_step y (wake n input) =
      let (t, cs) = wake_at n input y.shared y.connections in
      record { shared = t; connections = cs }

  unfoldable pub run : System → List Action → System
  run y [] = y
  run y (a ∷ schedule) = run (system_step y a) schedule
