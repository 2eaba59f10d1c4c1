-- ===== src/Backend/Handles/Initial.antt =====
-- hammer/hammeregg_backend/src/net.rs: the first step of `start_pion_server`, a new connection and
-- the server that owns it.
use hammeregg.Prelude.{
  ℕ, ◌∷◌, ◌≡◌, sym, subst, ◌∙◌, inl, inr, refl, arith, true, false, nat_eq, some, none, nat_keys,
  Option, Bool-cases, message, ok, err, panic, Result,
}
use hammeregg.Prelude.HashMap.{get-insert}
use hammeregg.Prelude.Stateful.Triples.{After, Triple}
use hammeregg.Backend.Host.{
  PeerConnection, RemoteConnection, Host, Services, Work, Call, call, notified, rtp2rtc_init,
}
use hammeregg.Backend.Pion.{on_failure, clean_up, init_connection, new_server}
use hammeregg.Backend.Handles.{IsFresh, IsSound, Owns, IsHeld, is_live, is_safe}
use hammeregg.Backend.Handles.Servers.{IsHeld-mono}

-- All is well, and a server owns the connection.
abbrev pub IsOwned : PeerConnection → ℕ → Host → Type 0
IsOwned c flag s = IsSound s × Owns c flag s

pub on_failure-Triple :
    {A : Type 0} {p e e' : Host → Type 0} {q : A → Host → Type 0} (clean : Host → Host) (m : Work A)
    → ((s : Host) → e s → e' (clean s))
    → Triple p m q e
    → Triple p (on_failure clean m) q e'
on_failure-Triple {A} {p} {e} {e'} {q} clean m cleaned t = record {
  after = λ s h. go (m s) (t.after s h);
}
  where
    go : (x : Result A × Host) → After q e x → After q e' (clean_up clean x)
    go (ok a, s) h = h
    go (err x, s) h = cleaned s h
    go (panic, s) h = cleaned s h

pub call-IsSound :
    (k : Call) (s : Host)
    → ((c : ℕ) → is_live c (k ∷ s.calls) ≡ is_live c s.calls)
    → ((n : ℕ) → notified n (k ∷ s.calls) ≡ notified n s.calls)
    → is_safe (k ∷ s.calls) ≡ true
    → IsSound s
    → IsSound (call k s)
call-IsSound k s keeps known safe sound = record {
  safe = safe;
  live = λ c v h. keeps c ∙ sound.live c v h;
  held = IsHeld-mono s.remote s (call k s) (λ n h. known n ∙ h) refl sound.held;
}

module _ ⦃lib : Services⦄ (fresh : IsFresh lib) (flag : ℕ) where
  init-IsHeld :
      (o : Option RemoteConnection) (s : Host)
      → IsSound s
      → IsHeld o s
      → IsHeld o (new_server (lib.init s.calls) flag (call (rtp2rtc_init (lib.init s.calls)) s))
  init-IsHeld none s sound held = tt
  init-IsHeld (some r) s sound (inl known) = inl known
  init-IsHeld (some r) s sound (inr (v, got, same)) = inr (
    v,
    ground (
      arith,
      fresh s.calls r.connection (sound.live r.connection v got),
      get-insert (lib.init s.calls) r.connection (record { stop_notifier = flag; answer_c = none })
          s.servers,
    ),
    same,
  )

  init-IsSound :
      (s : Host)
      → IsSound s
      → nat_eq (lib.init s.calls) 0 ≡ false
      → IsSound (new_server (lib.init s.calls) flag (call (rtp2rtc_init (lib.init s.calls)) s))
  init-IsSound s sound valid = record {
    safe = sound.safe;
    live = λ c v h. ground (
      arith,
      sound.live c v,
      get-insert (lib.init s.calls) c (record { stop_notifier = flag; answer_c = none }) s.servers,
    );
    held = init-IsHeld s.remote s sound sound.held;
  }

  module _ (s : Host) where
    init-null :
        nat_eq (lib.init s.calls) 0 ≡ true
        → init_connection flag s ≡ (
          err (message "RTP2RTC init failed: couldn't initialize connection!"),
          call (rtp2rtc_init (lib.init s.calls)) s,
        )
    unfolding init_connection
    init-null e = rw e

    init-valid :
        nat_eq (lib.init s.calls) 0 ≡ false
        → init_connection flag s ≡ (
          ok (lib.init s.calls),
          new_server (lib.init s.calls) flag (call (rtp2rtc_init (lib.init s.calls)) s),
        )
    unfolding init_connection
    init-valid e = rw e

  null-IsSound :
      (s : Host) (c : PeerConnection)
      → nat_eq c 0 ≡ true
      → IsSound s
      → IsSound (call (rtp2rtc_init c) s)
  null-IsSound s c e sound =
      call-IsSound (rtp2rtc_init c) s (λ d. ground arith) (λ n. refl) sound.safe sound

  pub init_connection-Triple : Triple IsSound (init_connection flag) (λ c. IsOwned c flag) IsSound
  init_connection-Triple = record {
    after = λ s sound. elim (Bool-cases (nat_eq (lib.init s.calls) 0)) [
      | inl e ↦
          subst (After (λ c. IsOwned c flag) IsSound) (sym (init-null s e))
            (null-IsSound s (lib.init s.calls) e sound)
      | inr e ↦ subst (After (λ c. IsOwned c flag) IsSound) (sym (init-valid s e)) (
        init-IsSound s sound e,
        (
          record { stop_notifier = flag; answer_c = none },
          ground (
            arith,
            get-insert (lib.init s.calls) (lib.init s.calls)
                (record { stop_notifier = flag; answer_c = none }) s.servers,
          ),
          refl,
        ),
      )
    ];
  }
