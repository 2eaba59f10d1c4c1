-- ===== src/Prelude/Stateful/Triples.antt =====
-- What holds before and after an action: `p` before it, `q` after it returned, `e` after it failed
-- or panicked.
use mathlib.Core.Path.{◌≡◌, refl}
use hammeregg.Prelude.Outcome.{Result, ok, err, panic}
use hammeregg.Prelude.Stateful.{Stateful, continue, ◌>>=◌, lift, modify, pure}

module _ {S : Type 0} where
  abbrev pub After : {A : Type 0} → (A → S → Type 0) → (S → Type 0) → Result A × S → Type 0
  After q e (ok a, s) = q a s
  After q e (err x, s) = e s
  After q e (panic, s) = e s

  pub record Triple {A : Type 0} (p : S → Type 0) (m : Stateful S A) (q : A → S → Type 0)
      (e : S → Type 0) : Type 0 where
    pub after : (s : S) → p s → After q e (m s)

  pub Triple-bind :
      {A B : Type 0} {p e : S → Type 0} {q : A → S → Type 0} {r : B → S → Type 0} (m : Stateful S A)
      (f : A → Stateful S B)
      → Triple p m q e
      → ((a : A) → Triple (q a) (f a) r e)
      → Triple p (m >>= f) r e
  Triple-bind {A} {B} {p} {e} {q} {r} m f first rest = record {
    after = λ s h. go (m s) (first.after s h);
  }
    where
      go : (x : Result A × S) → After q e x → After r e (continue x.0 f x.1)
      go (ok a, t) h = (rest a).after t h
      go (err x, t) h = h
      go (panic, t) h = h

  pub Triple-lift :
      {A : Type 0} {p e : S → Type 0} (r : Result A)
      → ((s : S) → p s → e s)
      → Triple p (lift r) (λ a. p) e
  Triple-lift (ok a) weaken = record { after = λ s h. h }
  Triple-lift (err e) weaken = record { after = weaken }
  Triple-lift panic weaken = record { after = weaken }

  pub Triple-modify :
      {p q e : S → Type 0} (f : S → S)
      → ((s : S) → p s → q (f s))
      → Triple p (modify f) (λ done. q) e
  Triple-modify f h = record { after = h }

  pub Triple-pure :
      {A : Type 0} {p e : S → Type 0} {q : A → S → Type 0} (a : A)
      → ((s : S) → p s → q a s)
      → Triple p (pure a) q e
  Triple-pure a h = record { after = h }

  -- Where nothing holds after a failure, the action returns.
  pub After-ok :
      {A : Type 0} {q : A → S → Type 0} (x : Result A × S)
      → After q (λ s. ⊥) x
      → (a : A) × (s : S) × (x ≡ (ok a, s)) × q a s
  After-ok (ok a, s) h = (a, s, refl, h)
  After-ok (err x, s) h = absurd h
  After-ok (panic, s) h = absurd h
