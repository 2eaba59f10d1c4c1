-- ===== src/Backend/Stopping.antt =====
-- hammer/hammeregg_backend/src/net.rs, `RemoteConnection::drop` and `PionServer::drop`, step by step,
-- over hammer/rtp2rtc/main.go, where a stop is a message on a channel without a buffer: whoever sends
-- waits for one who receives, and only `hammer_rtp2rtc_start` receives, once.
pub mod Orders
use hammeregg.Prelude.{
  ℕ, List, [], ◌∷◌, ◌++◌, Bool, true, false, ◌≡◌, ◌≢◌, refl, arith, ◌⊎◌, inl, inr,
}

-- Where the drop of the remote connection is: about to load the flag, in its stop, about to kill the
-- video process, or over.
pub data RemoteAt : Type 0 where
  loading stopping killing dropped : RemoteAt

-- Where the server's thread is: in `hammer_rtp2rtc_start` before its last line, at that line, about
-- to store the flag, in the stop of its own drop, about to free the connection, or over.
pub data ServerAt : Type 0 where
  starting receiving storing sending freeing over : ServerAt

pub record Drops : Type 0 where
  pub remote : RemoteAt
  pub server : ServerAt
  pub stop_notifier : Bool
  pub killed : Bool
  pub freed : Bool

-- `<-*peerConnection.StopNotifier`
abbrev pub is_receiving : ServerAt → Bool
is_receiving receiving = true
is_receiving _ = false

-- `RemoteConnection::drop`, whose connection is not null.
unfoldable pub remote_turn : Drops → Drops
remote_turn d = elim d.remote [
  | loading ↦ elim d.stop_notifier [
    | true ↦ record d { remote = dropped }
    | false ↦ record d { remote = stopping }
  ]
  | stopping ↦ elim (is_receiving d.server) [
    | true ↦ record d { remote = killing; server = storing }
    | false ↦ d
  ]
  | killing ↦ record d { remote = dropped; killed = true }
  | dropped ↦ d
]

-- The end of `hammer_rtp2rtc_start`, and `PionServer::drop`, whose connection is not null.
unfoldable pub server_turn : Drops → Drops
server_turn d = elim d.server [
  | starting ↦ record d { server = receiving }
  | receiving ↦ d
  | storing ↦ record d { stop_notifier = true; server = sending }
  | sending ↦ elim (is_receiving d.server) [ true ↦ record d { server = freeing } | false ↦ d ]
  | freeing ↦ record d { freed = true; server = over }
  | over ↦ d
]

pub data Side : Type 0 where
  remote_side server_side : Side

unfoldable pub side_turn : Side → Drops → Drops
unfolding remote_turn server_turn
side_turn remote_side d = remote_turn d
side_turn server_side d = server_turn d

-- The turns in the order in which the threads run.
unfoldable pub run_drops : List Side → Drops → Drops
unfolding side_turn
run_drops [] d = d
run_drops (turn ∷ turns) d = run_drops turns (side_turn turn d)

-- The remote is replaced while its server streams or is about to.
abbrev pub replaced : Drops
replaced = record {
  remote = loading;
  server = starting;
  stop_notifier = false;
  killed = false;
  freed = false;
}
