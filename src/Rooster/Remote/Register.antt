-- ===== src/Rooster/Remote/Register.antt =====
-- hammer/hammeregg_rooster/src/main.rs: a remote joins its desktop and leaves it.
use hammeregg.Prelude.{
  ℕ, suc, String, ◌≡◌, refl, arith, ok, err, message, Option, none, some, ◌==◌, if◌then◌else◌,
  string_keys, eq_iff,
}
use hammeregg.Prelude.HashMap
use hammeregg.Prelude.HashMap.{get-insert}
use hammeregg.Rooster.Peers.{DesktopAndPeers, insert_peer, remove_peer}
use hammeregg.Rooster.Task.{Env, Shared}
use hammeregg.Rooster.Remote.{leave, remote_register, remote_disconnect}

abbrev pub without_peer : ℕ → Option DesktopAndPeers → Option DesktopAndPeers
without_peer id none = none
without_peer id (some d) = some (remove_peer d id)

leave-desktops :
    (name j : String) (id : ℕ) (o : Option DesktopAndPeers) (s : Shared)
    → HashMap.get name s.desktops ≡ o
    → HashMap.get j (leave name id o s).desktops
      ≡ (if name == j then without_peer id (HashMap.get j s.desktops) else HashMap.get j s.desktops)
leave-desktops name j id none s found = ground (arith, eq_iff name j)
leave-desktops name j id (some d) s found =
    ground (arith, eq_iff name j, get-insert name j (remove_peer d id) s.desktops)

module _ ⦃env : Env⦄ where
  -- The remote gets the next channel, and the id under which its desktop now has that channel.
  pub remote_register_lem :
      (name : String) (s : Shared) (d : DesktopAndPeers)
      → HashMap.get name s.desktops ≡ some d
      → let tx = s.next_channel in
        remote_register name s ≡ (
          ok ((insert_peer d tx).1, tx),
          record s {
            desktops = HashMap.insert name (insert_peer d tx).0 s.desktops;
            next_channel = suc tx;
          },
        )
  unfolding remote_register
  remote_register_lem name s d found = rw found

  pub remote_register-unknown :
      (name : String) (s : Shared)
      → HashMap.get name s.desktops ≡ none
      → remote_register name s ≡ (
        err (message "Desktop disappeared during remote init?"),
        record s { next_channel = suc s.next_channel },
      )
  unfolding remote_register
  remote_register-unknown name s unknown = rw unknown

  -- After the regular end of a remote's task the desktop under its name is without the peer of its
  -- id, and every other name has the desktop that it had.
  pub remote_disconnect-desktops :
      (name j : String) (id : ℕ) (s : Shared)
      → HashMap.get j (remote_disconnect name id s).1.desktops ≡ (
          if name == j
          then without_peer id (HashMap.get j s.desktops)
          else HashMap.get j s.desktops)
  unfolding remote_disconnect
  remote_disconnect-desktops name j id s =
      leave-desktops name j id (HashMap.get name s.desktops) s refl
