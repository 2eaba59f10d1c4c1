-- ===== src/Prelude/Net/Decimals.antt =====
-- A printed number is read back.
use Prim.Native.Nat.{ℕ, zero, suc, ◌+◌, ◌*◌, ◌/◌, ◌%◌, ◌^◌, ◌<◌, ◌≤◌}
use mathlib.Core.Path.{◌≡◌, refl, ◌∙◌}
use mathlib.Core.Bool.{Bool, false, not, ◌&&◌, ◌||◌}
use mathlib.Core.Option.{Option, none, some}
use mathlib.Core.List.{List, [], ◌∷◌, ◌++◌, append_assoc}
use native.Mathlib.Omega.{arith}
use native.Mathlib.Decide.{dec_lt}
use hammeregg.Prelude.Tests.{if◌then◌else◌, ltb, nat_eq}
use hammeregg.Prelude.Lists.{length, length-append}
use hammeregg.Prelude.Net.{to_digit, given, digits, exceeds, has_leading_zero, read_number}
use hammeregg.Prelude.Net.Decimal.{decimal_within, decimal}

to_digit-digit : (d : ℕ) → d < 10 → to_digit 10 (d + b'0') ≡ some d
unfolding to_digit
to_digit-digit d h = ground arith

-- The text does not go on with a digit.
abbrev pub EndsNumber : List ℕ → Type 0
EndsNumber [] = Unit
EndsNumber (b ∷ bs) = to_digit 10 b ≡ none

-- That many digits may stand in a number.
abbrev pub Allows : Option ℕ → ℕ → Type 0
Allows none n = Unit
Allows (some max_digits) n = n ≤ max_digits

decimal_within-small : (fuel n : ℕ) → n < 10 → decimal_within (suc fuel) n ≡ (n + b'0') ∷ []
unfolding decimal_within
decimal_within-small fuel n h = ground arith

decimal_within-large :
    (fuel n : ℕ)
    → 10 ≤ n
    → decimal_within (suc fuel) n ≡ decimal_within fuel (n / 10) ++ (n % 10 + b'0') ∷ []
unfolding decimal_within
decimal_within-large fuel n h = ground arith

exceeds-Allows :
    (max_digits : Option ℕ) (n : ℕ) → Allows max_digits n → exceeds n max_digits ≡ false
exceeds-Allows none n h = refl
exceeds-Allows (some k) n h = ground arith

module _ (bound : ℕ) (max_digits : Option ℕ) where
  digits-digit :
      (d r n : ℕ) (rest : List ℕ)
      → d < 10
      → r * 10 + d < bound
      → Allows max_digits (n + 1)
      → digits 10 bound max_digits r n ((d + b'0') ∷ rest)
        ≡ digits 10 bound max_digits (r * 10 + d) (n + 1) rest
  unfolding digits
  digits-digit d r n rest small below allowed =
      ground (arith, to_digit-digit d small, exceeds-Allows max_digits (n + 1) allowed)

  -- The same, with the new number and the new count written otherwise.
  digits-next :
      (d r n m k : ℕ) (rest : List ℕ)
      → d < 10
      → r * 10 + d ≡ m
      → n + 1 ≡ k
      → m < bound
      → Allows max_digits k
      → digits 10 bound max_digits r n ((d + b'0') ∷ rest) ≡ digits 10 bound max_digits m k rest
  digits-next d r n m k rest small e c below allowed =
      rw (← e, ← c) (digits-digit d r n rest small (omega arith) (rw (← c) at allowed))

  Allows-fewer : (m n : ℕ) → m ≤ n → Allows max_digits n → Allows max_digits m
  Allows-fewer m n h allowed = go max_digits allowed
    where
      go : (o : Option ℕ) → Allows o n → Allows o m
      go none a = tt
      go (some k) a = omega arith

  digits-decimal_within :
      (fuel n : ℕ) (rest : List ℕ)
      → n < fuel
      → n < bound
      → Allows max_digits (length (decimal_within fuel n))
      → digits 10 bound max_digits 0 0 (decimal_within fuel n ++ rest)
        ≡ digits 10 bound max_digits n (length (decimal_within fuel n)) rest
  digits-decimal_within zero n rest h below allowed = absurd (omega arith)
  digits-decimal_within (suc fuel) n rest h below allowed = elim (dec_lt n 10) [
    | yes small ↦
        let e = decimal_within-small fuel n small in
        rw e (digits-next n 0 0 n 1 rest small (omega arith) refl below (rw e at allowed))
    | no large ↦
        let e = decimal_within-large fuel n (omega arith) in
        let front = decimal_within fuel (n / 10) in
        let m = length-append front ((n % 10 + b'0') ∷ []) in
        rw (e, append_assoc, m)
          (digits-decimal_within fuel (n / 10) ((n % 10 + b'0') ∷ rest) (omega arith) (omega arith)
              (Allows-fewer _ _ (omega arith) (rw (e, m) at allowed))
            ∙ digits-next (n % 10) (n / 10) (length front) n (length front + 1) rest (omega arith)
                (omega arith) refl below (rw (e, m) at allowed))
  ]

  digits_end :
      (r n : ℕ) (rest : List ℕ)
      → EndsNumber rest
      → digits 10 bound max_digits r n rest ≡ some ((r, n), rest)
  unfolding digits
  digits_end r n [] h = refl
  digits_end r n (b ∷ rest) h = ground arith

-- A printed number has a first digit, and that is a zero only for zero.
first_digit :
    (fuel n : ℕ) (rest : List ℕ)
    → n < fuel
    → 0 < n
    → has_leading_zero (decimal_within fuel n ++ rest) ≡ false
first_digit zero n rest h positive = absurd (omega arith)
first_digit (suc fuel) n rest h positive = elim (dec_lt n 10) [
  | yes small ↦ rw (decimal_within-small fuel n small) (ground arith)
  | no large ↦
      rw (decimal_within-large fuel n (omega arith), append_assoc)
        (first_digit fuel (n / 10) ((n % 10 + b'0') ∷ rest) (omega arith) (omega arith))
]

-- A printed number begins with no character past the digits.
starts_with_digit :
    (c fuel n : ℕ) (rest : List ℕ)
    → b'9' < c
    → n < fuel
    → given c (decimal_within fuel n ++ rest) ≡ none
starts_with_digit c zero n rest hc h = absurd (omega arith)
starts_with_digit c (suc fuel) n rest hc h = elim (dec_lt n 10) [
  | yes small ↦ rw (decimal_within-small fuel n small) (ground arith)
  | no large ↦
      rw (decimal_within-large fuel n (omega arith), append_assoc)
        (starts_with_digit c fuel (n / 10) ((n % 10 + b'0') ∷ rest) hc (omega arith))
]

pub given-decimal : (c n : ℕ) (rest : List ℕ) → b'9' < c → given c (decimal n ++ rest) ≡ none
unfolding decimal
given-decimal c n rest hc = starts_with_digit c (suc n) n rest hc (omega arith)

length-decimal_within-small : (fuel n : ℕ) → n < fuel → n < 10 → length (decimal_within fuel n) ≡ 1
length-decimal_within-small zero n h small = absurd (omega arith)
length-decimal_within-small (suc fuel) n h small = rw (decimal_within-small fuel n small)

length-decimal_within-large :
    (fuel n : ℕ)
    → 10 ≤ n
    → length (decimal_within (suc fuel) n) ≡ length (decimal_within fuel (n / 10)) + 1
length-decimal_within-large fuel n large =
    rw (decimal_within-large fuel n large) (length-append (decimal_within fuel (n / 10)) _)

length-decimal_within_pos : (fuel n : ℕ) → n < fuel → 0 < length (decimal_within fuel n)
length-decimal_within_pos zero n h = absurd (omega arith)
length-decimal_within_pos (suc fuel) n h = elim (dec_lt n 10) [
  | yes small ↦ omega (arith, length-decimal_within-small (suc fuel) n h small)
  | no large ↦ omega (arith, length-decimal_within-large fuel n (omega arith))
]

-- One digit more for ten times the size.
length-decimal_within-le :
    (k m : ℕ)
    → ((fuel n : ℕ) → n < fuel → n < m → length (decimal_within fuel n) ≤ k)
    → (fuel n : ℕ) → n < fuel
    → n < m * 10
    → length (decimal_within fuel n) ≤ k + 1
length-decimal_within-le k m shorter zero n h below = absurd (omega arith)
length-decimal_within-le k m shorter (suc fuel) n h below = elim (dec_lt n 10) [
  | yes small ↦ omega (arith, length-decimal_within-small (suc fuel) n h small)
  | no large ↦ omega (
    arith,
    length-decimal_within-large fuel n (omega arith),
    shorter fuel (n / 10) (omega arith) (omega arith),
  )
]

-- A byte has at most three digits.
pub length-decimal-byte : (n : ℕ) → n < 2 ^ 8 → length (decimal n) ≤ 3
unfolding decimal
length-decimal-byte n h =
    length-decimal_within-le 2 100
      (length-decimal_within-le 1 10
        (λ fuel n h small. omega (arith, length-decimal_within-small fuel n h small)))
      (suc n) n (omega arith) (omega arith)

leads_well :
    (n : ℕ) (rest : List ℕ)
    → (has_leading_zero (decimal_within (suc n) n ++ rest)
        && ltb 1 (length (decimal_within (suc n) n)))
      ≡ false
leads_well n rest = elim (dec_lt 0 n) [
  | yes positive ↦ rw (first_digit (suc n) n rest (omega arith) positive)
  | no zero_only ↦
      let e = length-decimal_within-small (suc n) n (omega arith) (omega arith) in ground (arith, e)
]

is_accepted :
    (allow z : Bool) (count n : ℕ) (rest : List ℕ)
    → 0 < count
    → (z && ltb 1 count) ≡ false
    → if◌then◌else◌ {A = Option (ℕ × List ℕ)}
        (nat_eq count 0 || (not allow && (z && ltb 1 count)))
        none
        (some (n, rest))
      ≡ some (n, rest)
is_accepted allow z count n rest positive leads = ground arith

module _ (bound : ℕ) (max_digits : Option ℕ) (allow_zero_prefix : Bool) where
  pub read_number-decimal :
      (n : ℕ) (rest : List ℕ)
      → n < bound
      → Allows max_digits (length (decimal n))
      → EndsNumber rest
      → read_number 10 bound max_digits allow_zero_prefix (decimal n ++ rest) ≡ some (n, rest)
  unfolding read_number decimal
  read_number-decimal n rest below allowed ends =
      rw
        (
          digits-decimal_within bound max_digits (suc n) n rest (omega arith) below allowed,
          digits_end bound max_digits n (length (decimal_within (suc n) n)) rest ends,
        )
        (is_accepted allow_zero_prefix _ (length (decimal_within (suc n) n)) n rest
          (length-decimal_within_pos (suc n) n (omega arith)) (leads_well n rest))
