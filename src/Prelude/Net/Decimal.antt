-- ===== src/Prelude/Net/Decimal.antt =====
-- `to_string` of an unsigned number.
use Prim.Native.Nat.{ℕ, zero, suc, ◌+◌, ◌/◌, ◌%◌}
use mathlib.Core.Bool.{true, false}
use mathlib.Core.List.{List, [], ◌∷◌, ◌++◌}
use hammeregg.Prelude.Tests.{ltb}

-- The fuel is a bound of the number, so that it suffices.
unfoldable pub decimal_within : ℕ → ℕ → List ℕ
decimal_within zero n = []
decimal_within (suc fuel) n = elim (ltb n 10) [
  | true ↦ (n + b'0') ∷ []
  | false ↦ decimal_within fuel (n / 10) ++ (n % 10 + b'0') ∷ []
]

unfoldable pub decimal : ℕ → List ℕ
unfolding decimal_within
decimal n = decimal_within (suc n) n
