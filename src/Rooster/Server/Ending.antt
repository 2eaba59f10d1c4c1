-- ===== src/Rooster/Server/Ending.antt =====
-- hammer/hammeregg_rooster/src/main.rs: the task of a connection ends with its socket.
use hammeregg.Prelude.{
  ℕ, zero, suc, ◌≤◌, ◌<◌, List, [], ◌∷◌, ◌++◌, ◌≡◌, refl, arith, length, Result,
}
use hammeregg.Core.Packet.{init_validate}
use hammeregg.Rooster.Task.{Env, Shared}
use hammeregg.Rooster.Server.{
  Connection, handshaking, home_greeting, remote_greeting, home_serving, remote_serving, ended,
  Input, delivered, finished, connection_step, System, Action, accept, wake, wake_at, system_step,
  run,
}
use hammeregg.Rooster.Server.Stages.{stage, connection_step-stage, finished-stage, delivered-stage}

-- The connection at a position is there and has at most so many stages before it.
abbrev IsAt : ℕ → ℕ → List Connection → Type 0
IsAt k n [] = ⊥
IsAt k zero (c ∷ cs) = stage c ≤ k
IsAt k (suc n) (c ∷ cs) = IsAt k n cs

IsAt-start : (n : ℕ) (cs : List Connection) → n < length cs → IsAt 3 n cs
IsAt-start n [] h = absurd (omega (arith, h))
IsAt-start zero (c ∷ cs) h = stage-max c
  where
    stage-max : (c : Connection) → stage c ≤ 3
    stage-max handshaking = omega arith
    stage-max (home_greeting name g) = omega arith
    stage-max (remote_greeting name g) = omega arith
    stage-max (home_serving name tx) = omega arith
    stage-max (remote_serving name id tx) = omega arith
    stage-max (ended r) = omega arith
IsAt-start (suc n) (c ∷ cs) h = IsAt-start n cs (omega (arith, h))

IsAt-append : (k n : ℕ) (cs ds : List Connection) → IsAt k n cs → IsAt k n (cs ++ ds)
IsAt-append k n [] ds h = absurd h
IsAt-append k zero (c ∷ cs) ds h = h
IsAt-append k (suc n) (c ∷ cs) ds h = IsAt-append k n cs ds h

module _ ⦃env : Env⦄ where
  -- A step that leads a connection from one stage to another leads there in the list.
  IsAt-own :
      (k l n : ℕ) (input : Input) (s : Shared) (cs : List Connection)
      → ((c : Connection) → stage c ≤ k → stage (connection_step c input s).0 ≤ l)
      → IsAt k n cs
      → IsAt l n (wake_at n input s cs).1
  unfolding wake_at
  IsAt-own k l n input s [] f h = absurd h
  IsAt-own k l zero input s (c ∷ cs) f h = f c h
  IsAt-own k l (suc n) input s (c ∷ cs) f h = IsAt-own k l n input s cs f h

  IsAt-wake_at :
      (k n m : ℕ) (input : Input) (s : Shared) (cs : List Connection)
      → IsAt k n cs
      → IsAt k n (wake_at m input s cs).1
  unfolding wake_at
  IsAt-wake_at k n m input s [] h = absurd h
  IsAt-wake_at k zero zero input s (c ∷ cs) h = omega (arith, h, connection_step-stage c input s)
  IsAt-wake_at k zero (suc m) input s (c ∷ cs) h = h
  IsAt-wake_at k (suc n) zero input s (c ∷ cs) h = h
  IsAt-wake_at k (suc n) (suc m) input s (c ∷ cs) h = IsAt-wake_at k n m input s cs h

  IsAt-run :
      (k n : ℕ) (y : System) (schedule : List Action)
      → IsAt k n y.connections
      → IsAt k n (run y schedule).connections
  unfolding run system_step
  IsAt-run k n y [] h = h
  IsAt-run k n y (accept ∷ schedule) h =
      IsAt-run k n (system_step y accept) schedule (IsAt-append k n y.connections _ h)
  IsAt-run k n y (wake m input ∷ schedule) h =
      IsAt-run k n (system_step y (wake m input)) schedule
        (IsAt-wake_at k n m input y.shared y.connections h)

  IsAt-run_own :
      (k l n : ℕ) (y : System) (input : Input) (rest : List Action)
      → ((c : Connection) (s : Shared) → stage c ≤ k → stage (connection_step c input s).0 ≤ l)
      → IsAt k n y.connections
      → IsAt l n (run y (wake n input ∷ rest)).connections
  unfolding run system_step
  IsAt-run_own k l n y input rest f h =
      IsAt-run l n (system_step y (wake n input)) rest
        (IsAt-own k l n input y.shared y.connections (λ c. f c y.shared) h)

  run-append : (y : System) (a b : List Action) → run y (a ++ b) ≡ run (run y a) b
  unfolding run
  run-append y [] b = refl
  run-append y (x ∷ a) b = run-append (system_step y x) a b

-- The connection at a position is there and has ended.
abbrev pub HasEnded : ℕ → List Connection → Type 0
HasEnded n [] = ⊥
HasEnded zero (c ∷ cs) = (r : Result (Unit {0})) × (c ≡ ended r)
HasEnded (suc n) (c ∷ cs) = HasEnded n cs

HasEnded-IsAt : (n : ℕ) (cs : List Connection) → IsAt 0 n cs → HasEnded n cs
HasEnded-IsAt n [] h = h
HasEnded-IsAt zero (ended r ∷ cs) h = (r, refl)
HasEnded-IsAt zero (handshaking ∷ cs) h = absurd (omega (arith, h))
HasEnded-IsAt zero (home_greeting name g ∷ cs) h = absurd (omega (arith, h))
HasEnded-IsAt zero (remote_greeting name g ∷ cs) h = absurd (omega (arith, h))
HasEnded-IsAt zero (home_serving name tx ∷ cs) h = absurd (omega (arith, h))
HasEnded-IsAt zero (remote_serving name id tx ∷ cs) h = absurd (omega (arith, h))
HasEnded-IsAt (suc n) (c ∷ cs) h = HasEnded-IsAt n cs h

module _ ⦃env : Env⦄ where
  -- When the socket of a connection ends, the response that it may wait for is sent or not, and
  -- its socket is at its end again, its task has ended, whatever the other connections do in the
  -- meantime, and whatever else this one goes through before, between and after.
  pub task_ends :
      (y : System) (n : ℕ) (d : Result (Unit {0})) (a b c : List Action)
      → n < length y.connections
      → HasEnded n
          (run y (
            (wake n finished ∷ a)
            ++ (wake n (delivered d) ∷ b)
            ++ (wake n finished ∷ c))).connections
  task_ends y n d a b c there =
      let y1 = run y (wake n finished ∷ a) in
      let y2 = run y1 (wake n (delivered d) ∷ b) in
      let h1 : IsAt 2 n y1.connections =
        IsAt-run_own 3 2 n y finished a (λ x s low. (finished-stage x s).0)
          (IsAt-start n y.connections there) in
      let h2 : IsAt 1 n y2.connections =
        IsAt-run_own 2 1 n y1 (delivered d) b (λ x s. delivered-stage x d s) h1 in
      rw
        (
          run-append y ((wake n finished ∷ a) ++ (wake n (delivered d) ∷ b)) (wake n finished ∷ c),
          run-append y (wake n finished ∷ a) (wake n (delivered d) ∷ b),
        )
        (HasEnded-IsAt n _ (IsAt-run_own 1 0 n y2 finished c (λ x s. (finished-stage x s).1) h2))
