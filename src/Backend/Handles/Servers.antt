-- ===== src/Backend/Handles/Servers.antt =====
-- hammer/hammeregg_backend/src/net.rs: the end of a server and of a remote, and the connections in
-- use.
use hammeregg.Prelude.{
  ℕ, List, [], ◌∷◌, ◌≡◌, sym, subst, inl, inr, refl, arith, true, false, nat_eq, some, none,
  nat_keys, Option, Option-cases, Bool-cases,
}
use hammeregg.Prelude.HashMap
use hammeregg.Prelude.HashMap.{map_laws, get-remove, get-insert}
use hammeregg.Backend.Host.{
  PeerConnection, RemoteConnection, PionServer, Host, notified, drop_remote_connection, drop_server,
  end_server, Call, thread_ends,
}
use hammeregg.Backend.Handles.{IsSound, IsHeld, is_live, is_safe}

is_live-null : (calls : List Call) → is_live 0 calls ≡ false
is_live-null [] = refl
is_live-null (k ∷ calls) = ground (arith, is_live-null calls)

module _ (c : PeerConnection) (v : PionServer) (s : Host) (sound : IsSound s)
    (found : HashMap.get c s.servers ≡ some v) where
  ended-safe : is_safe (end_server c (some v) s).calls ≡ true
  unfolding drop_server
  ended-safe = ground (arith, sound.safe, sound.live c v found, is_live-null s.calls)

  ended-live :
      (d : ℕ) (server : PionServer)
      → HashMap.get d (end_server c (some v) s).servers ≡ some server
      → is_live d (end_server c (some v) s).calls ≡ true
  unfolding drop_server
  ended-live d server h = ground (arith, sound.live d server, get-remove c d s.servers)

  ended-IsHeld :
      (r : RemoteConnection) → IsHeld (some r) s → IsHeld (some r) (end_server c (some v) s)
  unfolding drop_server
  ended-IsHeld r (inl known) = inl (ground arith)
  ended-IsHeld r (inr (server, got, same)) = elim (Bool-cases (nat_eq c r.connection)) [
    | inl here ↦ inl (ground arith)
    | inr elsewhere ↦ inr (server, ground (arith, get-remove c r.connection s.servers), same)
  ]

pub IsHeld-mono :
    (o : Option RemoteConnection) (s t : Host)
    → ((n : ℕ) → notified n s.calls ≡ true → notified n t.calls ≡ true)
    → t.servers ≡ s.servers
    → IsHeld o s
    → IsHeld o t
IsHeld-mono none s t known same h = tt
IsHeld-mono (some r) s t known same (inl h) = inl (known r.stop_notifier h)
IsHeld-mono (some r) s t known same (inr h) = inr (
    subst
      (λ m.
        (server : PionServer) × (HashMap.get r.connection m ≡ some server)
        × (server.stop_notifier ≡ r.stop_notifier))
      (sym same) h)

pub thread_ends-IsHeld :
    (o : Option RemoteConnection) (c : PeerConnection) (s : Host)
    → IsSound s
    → IsHeld o s
    → IsHeld o (thread_ends c s)
unfolding thread_ends drop_server
thread_ends-IsHeld none c s sound held = tt
thread_ends-IsHeld (some r) c s sound held = elim (Option-cases (HashMap.get c s.servers)) [
  | inl e ↦ subst (λ o. IsHeld (some r) (end_server c o s)) (sym e) held
  | inr (v, e) ↦
      subst (λ o. IsHeld (some r) (end_server c o s)) (sym e) (ended-IsHeld c v s sound e r held)
]

pub end_server-remote :
    (c : PeerConnection) (o : Option PionServer) (s : Host) → (end_server c o s).remote ≡ s.remote
unfolding drop_server
end_server-remote c none s = refl
end_server-remote c (some v) s = ground arith

pub thread_ends-IsSound : (c : PeerConnection) (s : Host) → IsSound s → IsSound (thread_ends c s)
unfolding thread_ends drop_server
thread_ends-IsSound c s sound = elim (Option-cases (HashMap.get c s.servers)) [
  | inl e ↦ subst (λ o. IsSound (end_server c o s)) (sym e) sound
  | inr (v, e) ↦ record {
    safe = subst (λ o. is_safe (end_server c o s).calls ≡ true) (sym e) (ended-safe c v s sound e);
    live =
        subst
          (λ o.
            (d : ℕ) (server : PionServer)
            → HashMap.get d (end_server c o s).servers ≡ some server
            → is_live d (end_server c o s).calls ≡ true)
          (sym e) (ended-live c v s sound e);
    held =
        subst (λ o. IsHeld o (thread_ends c s)) (sym (end_server-remote c _ s))
          (thread_ends-IsHeld s.remote c s sound sound.held);
  }
]

module _ (r : RemoteConnection) (s : Host) where
  pub drop_remote-remote : (drop_remote_connection r s).remote ≡ s.remote
  drop_remote-remote = ground arith
