-- ===== src/Rooster/Directory.antt =====
-- hammer/hammeregg_rooster/src/main.rs: what the map of the server stands for, whatever the order of
-- its entries: a directory of desktops, each with its members, and what may happen to it.
pub mod Pieces
pub mod Refines
use hammeregg.Prelude.{
  ℕ, ◌+◌, ◌%◌, ◌^◌, String, Option, none, some, ◌==◌, if◌then◌else◌, string_keys, nat_keys, ok,
  Result,
}
use hammeregg.Prelude.HashMap
use hammeregg.Rooster.Peers.{Sender, DesktopAndPeers, get_peer}
use hammeregg.Rooster.Task.{Shared}
use hammeregg.Rooster.Server.{
  Connection, home_greeting, remote_greeting, home_serving, remote_serving, Input, delivered,
  finished,
}

-- A desktop's channel, the id of the next member, and the channel of the member of each id.
pub record Entry : Type 0 where
  pub home : Sender
  pub next_id : ℕ
  pub members : ℕ → Option Sender

abbrev pub Directory : Type 0
Directory = String → Option Entry

-- Another entry under one name.
abbrev pub at_name : String → (Option Entry → Option Entry) → Directory → Directory
at_name name f directory j = if name == j then f (directory j) else directory j

abbrev pub registers : String → Sender → Directory → Directory
registers name tx =
    at_name name (λ old. some (record { home = tx; next_id = 0; members = λ id. none }))

abbrev pub with_member : Sender → Option Entry → Option Entry
with_member tx none = none
with_member tx (some e) = some (record e {
  next_id = (e.next_id + 1) % 2 ^ 32;
  members = λ id. if e.next_id == id then some tx else e.members id;
})

abbrev pub joins : String → Sender → Directory → Directory
joins name tx = at_name name (with_member tx)

abbrev pub without_member : ℕ → Option Entry → Option Entry
without_member id none = none
without_member id (some e) =
    some (record e { members = λ other. if id == other then none else e.members other })

abbrev pub leaves : String → ℕ → Directory → Directory
leaves name id = at_name name (without_member id)

abbrev pub unregisters : String → Directory → Directory
unregisters name = at_name name (λ old. none)

-- What a step of a connection does to the directory, by where it was, what it waited for and where
-- it is then: a desktop registers and a remote joins when the response was sent and they begin to
-- be served, and they go when they are finished. Nothing else changes the directory.
abbrev pub directory_after : Connection → Input → Connection → Directory → Directory
directory_after (home_greeting name greeting) (delivered d) (home_serving served tx) =
    registers name tx
directory_after (remote_greeting name greeting) (delivered d) (remote_serving served id tx) =
    joins name tx
directory_after (home_serving name tx) finished c = unregisters name
directory_after (remote_serving name id tx) finished c = leaves name id
directory_after _ _ _ = λ directory. directory

-- The directory that a map stands for.
abbrev pub entry_of : Option DesktopAndPeers → Option Entry
entry_of none = none
entry_of (some d) =
    some (record { home = d.desktop_tx; next_id = d.id_counter; members = get_peer d })

abbrev pub directory_of : Shared → Directory
directory_of s name = entry_of (HashMap.get name s.desktops)
