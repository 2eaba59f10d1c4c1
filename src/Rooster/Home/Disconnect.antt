-- ===== src/Rooster/Home/Disconnect.antt =====
-- hammer/hammeregg_rooster/src/main.rs: what is left when a desktop's task ends in the regular way.
use mathlib.Core.List.{Memᴰ}
use hammeregg.Prelude.{
  ℕ, String, List, [], ◌∷◌, ◌≡◌, refl, ap, ◌∙◌, Option, none, some, ◌==◌, if◌then◌else◌,
  string_keys, nat_keys, All,
}
use hammeregg.Prelude.HashMap
use hammeregg.Prelude.HashMap.{get-remove, All-get}
use hammeregg.Rooster.Peers.{Sender, DesktopAndPeers, get_peer}
use hammeregg.Rooster.Task.{Env, Shared, Event, closed, close_channel}
use hammeregg.Rooster.Home.{home_disconnect, close_peers, close_desktop}

close_peers-mono :
    (peers : List (ℕ × Sender)) (s : Shared) {e : Event}
    → Memᴰ e s.log
    → Memᴰ e (close_peers peers s).log
close_peers-mono [] s m = m
close_peers-mono ((id, tx) ∷ rest) s m = close_peers-mono rest (close_channel tx s) (Memᴰ.tail m)

close_peers-closed :
    (peers : List (ℕ × Sender)) (s : Shared)
    → All (λ (entry : ℕ × Sender). Memᴰ (closed entry.1) (close_peers peers s).log) peers
close_peers-closed [] s = tt
close_peers-closed ((id, tx) ∷ rest) s = (
  close_peers-mono rest (close_channel tx s) (Memᴰ.head refl),
  close_peers-closed rest (close_channel tx s),
)

close_peers-desktops :
    (peers : List (ℕ × Sender)) (s : Shared) → (close_peers peers s).desktops ≡ s.desktops
close_peers-desktops [] s = refl
close_peers-desktops ((id, tx) ∷ rest) s = close_peers-desktops rest (close_channel tx s)

close_desktop-desktops :
    (o : Option DesktopAndPeers) (s : Shared) → (close_desktop o s).desktops ≡ s.desktops
close_desktop-desktops none s = refl
close_desktop-desktops (some d) s = close_peers-desktops d.peers s

close_peers-next_channel :
    (peers : List (ℕ × Sender)) (s : Shared) → (close_peers peers s).next_channel ≡ s.next_channel
close_peers-next_channel [] s = refl
close_peers-next_channel ((id, tx) ∷ rest) s = close_peers-next_channel rest (close_channel tx s)

close_desktop-next_channel :
    (o : Option DesktopAndPeers) (s : Shared) → (close_desktop o s).next_channel ≡ s.next_channel
close_desktop-next_channel none s = refl
close_desktop-next_channel (some d) s = close_peers-next_channel d.peers s

module _ ⦃env : Env⦄ where
  pub home_disconnect-next_channel :
      (name : String) (s : Shared) → (home_disconnect name s).1.next_channel ≡ s.next_channel
  unfolding home_disconnect
  home_disconnect-next_channel name s = close_desktop-next_channel (HashMap.get name s.desktops) _

  -- After the regular end of a desktop's task its name is free and every other name has the
  -- desktop that it had.
  pub home_disconnect-desktops :
      (name j : String) (s : Shared)
      → HashMap.get j (home_disconnect name s).1.desktops
        ≡ (if name == j then none else HashMap.get j s.desktops)
  unfolding home_disconnect
  home_disconnect-desktops name j s =
      ap (HashMap.get j) (close_desktop-desktops (HashMap.get name s.desktops) _)
      ∙ get-remove name j s.desktops

  -- After the regular end of a desktop's task the channel of every peer that it had is closed.
  pub home_disconnect-closes :
      (name : String) (s : Shared) (d : DesktopAndPeers) (id : ℕ) (tx : Sender)
      → HashMap.get name s.desktops ≡ some d
      → get_peer d id ≡ some tx
      → Memᴰ (closed tx) (home_disconnect name s).1.log
  unfolding home_disconnect get_peer
  home_disconnect-closes name s d id tx found joined =
      rw found
        (All-get (λ peer. Memᴰ (closed peer) _) d.peers id (close_peers-closed d.peers _) joined)
