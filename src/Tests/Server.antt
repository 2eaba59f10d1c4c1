-- ===== src/Tests/Server.antt =====
-- hammer/hammeregg_rooster/src/main.rs at work: connections that come and go.
use hammeregg.Prelude.{◌≡◌, [], ◌∷◌, ◌++◌, ok, arith, string_keys}
use hammeregg.Core.Wire.{Message, binary}
use hammeregg.Rooster.Task.{Shared}
use hammeregg.Rooster.Home.{free}
use hammeregg.Rooster.Server.{
  handshaking, home_greeting, remote_serving, received, delivered, finished, connection_step,
  System, accept, wake, run,
}
use hammeregg.Rooster.Server.Ending.{HasEnded, task_ends}
use hammeregg.Rooster.Directory.{directory_of, directory_after}
use hammeregg.Rooster.Directory.Refines.{connection_step-refines}
use hammeregg.Tests.Encoding.{small_env}
use hammeregg.Tests.Desktop.{empty_map}

-- A desktop with channel 0 and two peers, with channels 1 and 2.
abbrev pub two_peers : Shared
two_peers = record {
  desktops = ("home", record { desktop_tx = 0; id_counter = 2; peers = (1, 2) ∷ (0, 1) ∷ [] }) ∷ [];
  next_channel = 3;
  log = [];
}

-- The second remote of the desktop goes.
connection_step-refines_example :
    directory_of
      (connection_step ⦃env = small_env⦄ (remote_serving "home" 1 2) finished two_peers).1
    ≡ directory_after
        (remote_serving "home" 1 2)
        finished
        (connection_step ⦃env = small_env⦄ (remote_serving "home" 1 2) finished two_peers).0
        (directory_of two_peers)
connection_step-refines_example =
    connection_step-refines ⦃env = small_env⦄ (remote_serving "home" 1 2) finished two_peers

abbrev remote_hello : Message
remote_hello = binary (1 ∷ 1108003529997441637 ∷ 65536 ∷ 3 ∷ 0 ∷ [])

-- A desktop that waits for its response to be sent, and a client that has said nothing.
abbrev arrivals : System
arrivals = record {
  shared = empty_map;
  connections = home_greeting "home" (free (binary (1 ∷ []))) ∷ handshaking ∷ [];
}

-- The desktop begins to be served, a remote joins, and the desktop's socket ends.
task_ends_example :
    HasEnded 0
      (run ⦃env = small_env⦄ arrivals (
        (wake 0 finished ∷ accept ∷ [])
        ++ (wake 0 (delivered (ok tt)) ∷ wake 1 (received (ok remote_hello)) ∷ [])
        ++ (wake 0 finished ∷ wake 1 (delivered (ok tt)) ∷ []))).connections
task_ends_example =
    task_ends ⦃env = small_env⦄ arrivals 0 (ok tt) (accept ∷ [])
      (wake 1 (received (ok remote_hello)) ∷ []) (wake 1 (delivered (ok tt)) ∷ []) (omega arith)
