-- ===== src/Prelude/HashMap.antt =====
-- `std::collections::HashMap` as an association list. The order of entries means nothing: what
-- the program does for each entry does not depend on it.
use mathlib.Core.Path.{◌≡◌, subst}
use mathlib.Core.Logic.{inl, inr}
use mathlib.Core.Bool.{Bool, true, false}
use mathlib.Core.Option.{Option, none, some}
use mathlib.Core.List.{List, [], ◌∷◌}
use native.Mathlib.Omega.{arith}
use hammeregg.Prelude.Tests.{if◌then◌else◌, Bool-cases}
use hammeregg.Prelude.Lists.{All}
use hammeregg.Prelude.Keys.{Key, ◌==◌}

abbrev pub HashMap {ℓ} : Type ℓ → Type ℓ → Type ℓ
HashMap K V = List (K × V)

abbrev pub empty {ℓ} : {K V : Type ℓ} → HashMap K V
empty = []

some_inj {ℓ} : {A : Type ℓ} {a b : A} → some a ≡ some b → a ≡ b
some_inj h = ground arith

module _ {ℓ} {K V : Type ℓ} ⦃key : Key K⦄ where
  unfoldable pub get : K → HashMap K V → Option V
  get k [] = none
  get k ((j, v) ∷ m) = if j == k then some v else get k m

  unfoldable pub remove : K → HashMap K V → HashMap K V
  remove k [] = []
  remove k ((j, v) ∷ m) = let rest = remove k m in if j == k then rest else (j, v) ∷ rest

  unfoldable pub insert : K → V → HashMap K V → HashMap K V
  insert k v m = (k, v) ∷ remove k m

  abbrev pub contains_key : K → HashMap K V → Bool
  contains_key k m = elim (get k m) [ none ↦ false | some _ ↦ true ]

  pub get-remove :
      (k j : K) (m : HashMap K V) → get j (remove k m) ≡ (if k == j then none else get j m)
  unfolding get remove
  get-remove k j [] = ground arith
  get-remove k j ((i, v) ∷ m) =
      ground (arith, get-remove k j m, key.same_iff i k, key.same_iff i j, key.same_iff k j)

  pub get-insert :
      (k j : K) (v : V) (m : HashMap K V)
      → get j (insert k v m) ≡ (if k == j then some v else get j m)
  unfolding get insert
  get-insert k j v m = ground (arith, get-remove k j m)

  -- What holds of every value in the map holds of each value that is found.
  pub All-get {κ} :
      (P : V → Type κ) (m : HashMap K V) (k : K) {v : V}
      → All (λ (entry : K × V). P entry.1) m
      → get k m ≡ some v
      → P v
  unfolding get
  All-get P [] k all found = cc
  All-get P ((j, w) ∷ m) k all found = elim (Bool-cases (j == k)) [
    | inl hit ↦ subst P (some_inj (rw hit at found)) all.0
    | inr miss ↦ All-get P m k all.1 (rw miss at found)
  ]

pub ruleset map_laws = (get-remove, get-insert)
