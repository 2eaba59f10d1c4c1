-- ===== src/Backend/Handles.antt =====
-- hammer/hammeregg_backend/src/net.rs: what it means that the handles of the Pion library are used
-- only between their creation and their release.
pub mod Servers
pub mod Initial
pub mod Answering
pub mod Starting
use hammeregg.Prelude.{
  ℕ, List, [], ◌∷◌, ◌≡◌, ◌≢◌, ◌⊎◌, Bool, true, false, not, ◌&&◌, ◌||◌, nat_eq, some, none, nat_keys,
  Option,
}
use hammeregg.Prelude.HashMap
use hammeregg.Backend.Host.{
  PeerConnection, Call, rtp2rtc_init, signal_offer, rtp2rtc_start, rtp2rtc_stop, rtp2rtc_free,
  RemoteConnection, PionServer, Host, Services, notified,
}

-- The connection was created and not yet released.
abbrev pub is_live : PeerConnection → List Call → Bool
is_live c [] = false
is_live c (rtp2rtc_init d ∷ calls) =
    let before = is_live c calls in (nat_eq c d && not (nat_eq c 0)) || before
is_live c (rtp2rtc_free d ∷ calls) = let before = is_live c calls in not (nat_eq c d) && before
is_live c (_ ∷ calls) = is_live c calls

-- Every call took a connection that was live at the time.
abbrev pub is_safe : List Call → Bool
is_safe [] = true
is_safe (signal_offer c desc ∷ calls) = let before = is_safe calls in is_live c calls && before
is_safe (rtp2rtc_start c ∷ calls) = let before = is_safe calls in is_live c calls && before
is_safe (rtp2rtc_stop c ∷ calls) = let before = is_safe calls in is_live c calls && before
is_safe (rtp2rtc_free c ∷ calls) = let before = is_safe calls in is_live c calls && before
is_safe (_ ∷ calls) = is_safe calls

-- What is documented of the Pion library: a new handle is not one that is in use.
abbrev pub IsFresh : Services → Type 0
IsFresh lib = (calls : List Call) (c : ℕ) → is_live c calls ≡ true → lib.init calls ≢ c

-- The thread of a server runs and owns the connection.
abbrev pub Owns : PeerConnection → ℕ → Host → Type 0
Owns c flag s =
    (server : PionServer) × (HashMap.get c s.servers ≡ some server) × (server.stop_notifier ≡ flag)

-- A remote knows of the end of its server, or its server has not ended.
abbrev pub IsHeld : Option RemoteConnection → Host → Type 0
IsHeld none s = Unit
IsHeld (some r) s = (notified r.stop_notifier s.calls ≡ true) ⊎ Owns r.connection r.stop_notifier s

pub record IsSound (s : Host) : Type 0 where
  pub safe : is_safe s.calls ≡ true
  pub live :
      (c : ℕ) (server : PionServer)
      → HashMap.get c s.servers ≡ some server
      → is_live c s.calls ≡ true
  pub held : IsHeld s.remote s
