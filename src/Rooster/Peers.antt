-- ===== src/Rooster/Peers.antt =====
-- hammer/hammeregg_rooster/src/main.rs: `DesktopAndPeers`, a desktop and the remotes that have
-- joined it, each under an id.
pub mod Laws
use hammeregg.Prelude.{ℕ, ◌+◌, ◌%◌, ◌^◌, Option}
use hammeregg.Prelude.{nat_keys}
use hammeregg.Prelude.HashMap
use hammeregg.Prelude.HashMap.{HashMap}

-- An `UnboundedSender<Message>`, by the number of its channel.
abbrev pub Sender : Type 0
Sender = ℕ

pub record DesktopAndPeers : Type 0 where
  pub desktop_tx : Sender
  pub id_counter : ℕ
  pub peers : HashMap ℕ Sender

unfoldable pub new : Sender → DesktopAndPeers
new desktop_tx = record { desktop_tx = desktop_tx; id_counter = 0; peers = HashMap.empty }

-- The counter is a `u32`, and wraps in a release build.
unfoldable pub insert_peer : DesktopAndPeers → Sender → DesktopAndPeers × ℕ
insert_peer d peer = (
  record d {
    peers = HashMap.insert d.id_counter peer d.peers;
    id_counter = (d.id_counter + 1) % 2 ^ 32;
  },
  d.id_counter,
)

-- `get_peer` and `get_peer_mut`.
unfoldable pub get_peer : DesktopAndPeers → ℕ → Option Sender
get_peer d id = HashMap.get id d.peers

unfoldable pub remove_peer : DesktopAndPeers → ℕ → DesktopAndPeers
remove_peer d id = record d { peers = HashMap.remove id d.peers }
