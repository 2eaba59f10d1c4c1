-- ===== src/Prelude/Outcome.antt =====
-- Results of fallible code: `Ok`, `Err` with an `anyhow::Error`, or a panic of the running task.
use Prim.Native.Nat.{ℕ}
use Prim.Native.String.{String}
use mathlib.Core.Path.{◌≡◌, refl}
use mathlib.Core.Option.{Option, none, some}
use mathlib.Core.List.{List}
use native.Mathlib.Omega.{arith}

-- `anyhow!(text)`, `anyhow!("text {}", n)`, an error under `.context(text)`, and the `ValidationErrors` of a packet, as
-- pairs of a field's name and a message.
pub data Error : Type 0 where
  message : String → Error
  numbered : String → ℕ → Error
  context : String → Error → Error
  invalid : List (String × String) → Error

pub data Result {ℓ} (A : Type ℓ) : Type ℓ where
  ok : A → Result A
  err : Error → Result A
  panic : Result A

-- The operator `?`, and the end of a task that panics.
infixl 10 ◌>>=◌
infixl 10 ◌>>◌
abbrev pub ◌>>=◌ {ℓ κ} : {A : Type ℓ} {B : Type κ} → Result A → (A → Result B) → Result B
panic >>= next = panic
err e >>= next = err e
ok a >>= next = next a

abbrev pub ◌>>◌ {ℓ κ} : {A : Type ℓ} {B : Type κ} → Result A → Result B → Result B
first >> last = first >>= λ _. last

-- `result.context(text)`
abbrev pub with_context {ℓ} : {A : Type ℓ} → Result A → String → Result A
with_context (ok a) text = ok a
with_context (err e) text = err (context text e)
with_context panic text = panic

-- `option.context(text)`
abbrev pub or_message {ℓ} : {A : Type ℓ} → Option A → String → Result A
or_message (some a) text = ok a
or_message none text = err (message text)

-- `option.unwrap()`
abbrev pub unwrap {ℓ} : {A : Type ℓ} → Option A → Result A
unwrap (some a) = ok a
unwrap none = panic

-- `result.unwrap()`
abbrev pub unwrap_result {ℓ} : {A : Type ℓ} → Result A → Result A
unwrap_result (ok a) = ok a
unwrap_result (err e) = panic
unwrap_result panic = panic

pub >>=-eq-ok {ℓ κ} :
    {A : Type ℓ} {B : Type κ} (first : Result A) (next : A → Result B) {b : B}
    → (first >>= next) ≡ ok b
    → (a : A) × (first ≡ ok a) × (next a ≡ ok b)
>>=-eq-ok panic next h = cc
>>=-eq-ok (err e) next h = cc
>>=-eq-ok (ok a) next h = (a, refl, h)

pub with_context-eq-ok {ℓ} :
    {A : Type ℓ} (m : Result A) (text : String) {a : A} → with_context m text ≡ ok a → m ≡ ok a
with_context-eq-ok (ok a) text h = h
with_context-eq-ok (err e) text h = cc
with_context-eq-ok panic text h = cc

pub with_context-bind {ℓ κ} :
    {A : Type ℓ} {B : Type κ} (m : Result A) (text : String) (f : A → Result B) {b : B}
    → (with_context m text >>= f) ≡ ok b
    → (a : A) × (m ≡ ok a) × (f a ≡ ok b)
with_context-bind (ok a) text f h = (a, refl, h)
with_context-bind (err e) text f h = cc
with_context-bind panic text f h = cc

pub ok_inj {ℓ} : {A : Type ℓ} {a b : A} → ok a ≡ ok b → a ≡ b
ok_inj h = ground arith

pub or_message-eq-ok {ℓ} :
    {A : Type ℓ} (o : Option A) (text : String) {a : A} → or_message o text ≡ ok a → o ≡ some a
or_message-eq-ok o text h = ground arith

-- `result.map_err(|_| anyhow!(text))`
abbrev pub or_else_message {ℓ} : {A : Type ℓ} → Result A → String → Result A
or_else_message (ok a) text = ok a
or_else_message (err e) text = err (message text)
or_else_message panic text = panic
