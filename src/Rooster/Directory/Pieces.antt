-- ===== src/Rooster/Directory/Pieces.antt =====
-- hammer/hammeregg_rooster/src/main.rs: the pieces of the handlers, and the directory.
use hammeregg.Prelude.{
  ℕ, String, ◌≡◌, refl, sym, ◌∙◌, ap, arith, subst, Option, none, some, Bool-cases, inl, inr, ◌==◌,
  if◌then◌else◌, string_keys, nat_keys, eq_iff, Result, true, false, Bool,
}
use hammeregg.Prelude.HashMap
use hammeregg.Prelude.HashMap.{get-insert}
use hammeregg.Core.Wire.{Message}
use hammeregg.Rooster.Peers.{Sender, DesktopAndPeers, new, get_peer, insert_peer, remove_peer}
use hammeregg.Rooster.Peers.Laws.{get_peer-insert_peer, get_peer-remove_peer}
use hammeregg.Rooster.Task.{Env, Shared}
use hammeregg.Rooster.Home.{home_register, home_packet, home_disconnect}
use hammeregg.Rooster.Home.Disconnect.{home_disconnect-desktops}
use hammeregg.Rooster.Remote.{remote_packet, remote_disconnect}
use hammeregg.Rooster.Remote.Register.{remote_disconnect-desktops, without_peer}
use hammeregg.Rooster.Directory.{
  Entry, at_name, registers, with_member, joins, without_member, leaves, unregisters, entry_of,
  directory_of,
}

entry_of-new :
    (tx : Sender)
    → entry_of (some (new tx)) ≡ some (record { home = tx; next_id = 0; members = λ id. none })
unfolding new get_peer HashMap.get
entry_of-new tx = refl

entry_of-insert_peer :
    (d : DesktopAndPeers) (tx : Sender)
    → entry_of (some (insert_peer d tx).0) ≡ with_member tx (entry_of (some d))
unfolding insert_peer
entry_of-insert_peer d tx = λ i. some (record {
  home = d.desktop_tx;
  next_id = (insert_peer d tx).0.id_counter;
  members = λ id. get_peer-insert_peer d tx id i;
})

entry_of-without_peer :
    (id : ℕ) (o : Option DesktopAndPeers)
    → entry_of (without_peer id o) ≡ without_member id (entry_of o)
unfolding remove_peer
entry_of-without_peer id none = refl
entry_of-without_peer id (some d) = λ i. some (record {
  home = d.desktop_tx;
  next_id = d.id_counter;
  members = λ other. get_peer-remove_peer d id other i;
})

entry_of-if :
    (b : Bool) (x y : Option DesktopAndPeers)
    → entry_of (if b then x else y) ≡ (if b then entry_of x else entry_of y)
entry_of-if true x y = refl
entry_of-if false x y = refl

-- The map with another desktop under one name.
at_name-insert :
    (name : String) (d : DesktopAndPeers) (f : Option Entry → Option Entry) (s : Shared)
    → f (directory_of s name) ≡ entry_of (some d)
    → directory_of (record s { desktops = HashMap.insert name d s.desktops })
      ≡ at_name name f (directory_of s)
at_name-insert name d f s h = λ i j.
    (ap entry_of (get-insert name j d s.desktops)
        ∙ entry_of-if (name == j) (some d) (HashMap.get j s.desktops)
        ∙ here j)
      i
  where
    here :
        (j : String)
        → (if name == j then entry_of (some d) else directory_of s j)
          ≡ (if name == j then f (directory_of s j) else directory_of s j)
    here j = elim (Bool-cases (name == j)) [
      | inl same ↦
          rw same
            (subst (λ k. entry_of (some d) ≡ f (directory_of s k)) ((eq_iff name j).0 same) (sym h))
      | inr other ↦ rw other refl
    ]

module _ ⦃env : Env⦄ where
  pub home_packet-desktops :
      (name : String) (item : Result Message) (s : Shared)
      → (home_packet name item s).1.desktops ≡ s.desktops
  unfolding home_packet
  home_packet-desktops name item s = ground arith

  pub remote_packet-desktops :
      (name : String) (id : ℕ) (item : Result Message) (s : Shared)
      → (remote_packet name id item s).1.desktops ≡ s.desktops
  unfolding remote_packet
  remote_packet-desktops name id item s = ground arith

  pub unregisters-home_disconnect :
      (name : String) (s : Shared)
      → directory_of (home_disconnect name s).1 ≡ unregisters name (directory_of s)
  unregisters-home_disconnect name s =
      λ i j. (ap entry_of (home_disconnect-desktops name j s) ∙ entry_of-if (name == j) none _) i

  pub leaves-remote_disconnect :
      (name : String) (id : ℕ) (s : Shared)
      → directory_of (remote_disconnect name id s).1 ≡ leaves name id (directory_of s)
  leaves-remote_disconnect name id s = λ i j.
      (ap entry_of (remote_disconnect-desktops name j id s)
          ∙ entry_of-if (name == j) (without_peer id (HashMap.get j s.desktops))
              (HashMap.get j s.desktops)
          ∙ ap (λ e. if name == j then e else directory_of s j)
              (entry_of-without_peer id (HashMap.get j s.desktops)))
        i

  pub registers-home_register :
      (name : String) (s : Shared)
      → directory_of (home_register name s).1 ≡ registers name s.next_channel (directory_of s)
  unfolding home_register
  registers-home_register name s =
      at_name-insert name (new s.next_channel)
        (λ old. some (record { home = s.next_channel; next_id = 0; members = λ id. none })) s
        (sym (entry_of-new s.next_channel))

  pub joins-insert_peer :
      (name : String) (d : DesktopAndPeers) (s : Shared)
      → HashMap.get name s.desktops ≡ some d
      → directory_of
          (record s { desktops = HashMap.insert name (insert_peer d s.next_channel).0 s.desktops })
        ≡ joins name s.next_channel (directory_of s)
  joins-insert_peer name d s known =
      at_name-insert name (insert_peer d s.next_channel).0 (with_member s.next_channel) s (
        ap (λ o. with_member s.next_channel (entry_of o)) known
        ∙ sym (entry_of-insert_peer d s.next_channel))

  pub same_map : (s t : Shared) → t.desktops ≡ s.desktops → directory_of t ≡ directory_of s
  same_map s t e = ap (λ m j. entry_of (HashMap.get j m)) e
