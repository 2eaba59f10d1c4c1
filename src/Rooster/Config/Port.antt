-- ===== src/Rooster/Config/Port.antt =====
-- hammer/hammeregg_rooster/src/main.rs, `validate_port`, against the value of a numeral.
use hammeregg.Prelude.{
  ℕ, ◌+◌, ◌*◌, ◌^◌, ◌<◌, ◌≤◌, String, List, [], ◌∷◌, ◌≡◌, ◌≢◌, ◌↔◌, refl, arith, true, false, ok,
  Option, none, some, Option-cases, Bool-cases, inl, inr, nat_eq, leb,
}
use hammeregg.Prelude.Text.{chars}
use hammeregg.Prelude.Net.{to_digit}
use hammeregg.Rooster.Config.{parse_digits, parse_u16, validate_port}

-- The number that the digits of a text write after the number so far, however large, if they are
-- digits.
abbrev pub value_after : ℕ → List ℕ → Option ℕ
value_after n [] = some n
value_after n (c ∷ cs) = elim (to_digit 10 c) [ none ↦ none | some x ↦ value_after (n * 10 + x) cs ]

-- The text of a port: digits, with a plus before them or not.
abbrev pub numeral : List ℕ → List ℕ
numeral [] = []
numeral (c ∷ []) = c ∷ []
numeral (c ∷ d ∷ cs) = elim (nat_eq c b'+') [ true ↦ d ∷ cs | false ↦ c ∷ d ∷ cs ]

value_after_le : (n p : ℕ) (cs : List ℕ) → value_after n cs ≡ some p → n ≤ p
value_after_le n p [] h = ground arith
value_after_le n p (c ∷ cs) h = elim (Option-cases (to_digit 10 c)) [
  | inl e ↦ ground (arith)
  | inr (x, e) ↦ ground (arith, value_after_le (n * 10 + x) p cs)
]

leb_le : (a b : ℕ) → leb a b ≡ true → a ≤ b
leb_le a b h = ground arith

leb_lt : (a b : ℕ) → leb a b ≡ false → b < a
leb_lt a b h = ground arith

parse_digits_iff :
    (n p : ℕ) (cs : List ℕ)
    → n < 2 ^ 16
    → (parse_digits n cs ≡ ok p) ↔ ((value_after n cs ≡ some p) × (p < 2 ^ 16))
unfolding parse_digits
parse_digits_iff n p [] h = (λ e. (ground arith, ground arith), λ (e, k). ground arith)
parse_digits_iff n p (c ∷ cs) h = elim (Option-cases (to_digit 10 c)) [
  | inl e ↦ rw (parse_digits, value_after, e) (λ k. absurd cc, λ (k, below). absurd cc)
  | inr (x, e) ↦ elim (Bool-cases (leb (2 ^ 16) (n * 10 + x))) [
    | inl large ↦
        rw (parse_digits, value_after, e, large)
          (
            λ k. absurd cc,
            λ (k, below).
                absurd (omega (arith, leb_le _ _ large, value_after_le (n * 10 + x) p cs k)),
          )
    | inr small ↦
        rw (parse_digits, value_after, e, small)
          (parse_digits_iff (n * 10 + x) p cs (leb_lt _ _ small))
  ]
]

-- The text of a port is taken exactly when it is digits, after a plus or not, whose value
-- without any bound is below 2 ^ 16, and then it is that value.
pub validate_port_iff :
    (val : String) (p : ℕ)
    → (validate_port val ≡ ok p)
      ↔ ((chars val ≢ []) × (value_after 0 (numeral (chars val)) ≡ some p) × (p < 2 ^ 16))
unfolding validate_port parse_u16
validate_port_iff val p = go (chars val)
  where
    go :
        (cs : List ℕ)
        → (parse_u16 cs ≡ ok p) ↔ ((cs ≢ []) × (value_after 0 (numeral cs) ≡ some p) × (p < 2 ^ 16))
    go [] = (λ k. absurd cc, λ (some_text, k, below). absurd (some_text refl))
    go (c ∷ []) =
        let (to, from) = parse_digits_iff 0 p (c ∷ []) (omega arith) in
        (
          λ k. let (e, below) = to k in (λ z. cc, e, below),
          λ (some_text, e, below). from (e, below),
        )
    go (c ∷ d ∷ cs) = elim (Bool-cases (nat_eq c b'+')) [
      | inl plus ↦
          let (to, from) = parse_digits_iff 0 p (d ∷ cs) (omega arith) in
          rw (numeral, plus)
            (
              λ k. let (e, below) = to k in (λ z. cc, e, below),
              λ (some_text, e, below). from (e, below),
            )
      | inr digit ↦
          let (to, from) = parse_digits_iff 0 p (c ∷ d ∷ cs) (omega arith) in
          rw (numeral, digit)
            (
              λ k. let (e, below) = to k in (λ z. cc, e, below),
              λ (some_text, e, below). from (e, below),
            )
    ]
