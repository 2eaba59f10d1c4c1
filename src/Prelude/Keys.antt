-- ===== src/Prelude/Keys.antt =====
-- Types whose values the program compares by `==`.
use Prim.Native.Nat.{ℕ}
use Prim.Native.String.{String}
use mathlib.Core.Path.{◌≡◌}
use mathlib.Core.Logic.{◌↔◌}
use mathlib.Core.Bool.{Bool, true}
use text.Mathlib.Text.{◌==◌ as str_eq}
use text.Mathlib.TextEquality.{eq_iff}
use hammeregg.Prelude.Tests.{nat_eq, nat_eq_iff}

pub record Key {ℓ} (A : Type ℓ) : Type ℓ where
  pub same : A → A → Bool
  pub same_iff : (x y : A) → (same x y ≡ true) ↔ (x ≡ y)

infix 50 ◌==◌
abbrev pub ◌==◌ {ℓ} : {A : Type ℓ} ⦃key : Key A⦄ → A → A → Bool
◌==◌ ⦃key⦄ = key.same

instance abbrev pub nat_keys : Key ℕ
nat_keys = record { same = nat_eq; same_iff = nat_eq_iff }

instance abbrev pub string_keys : Key String
string_keys = record { same = str_eq; same_iff = eq_iff }
