-- ===== src/Rooster/Server/Routing.antt =====
-- hammer/hammeregg_rooster/src/main.rs: where the packets go in an interleaving.
use hammeregg.Prelude.{ℕ, zero, suc, ◌≤◌, List, [], ◌∷◌, ◌++◌, refl, arith, true, All}
use hammeregg.Prelude.HashMap
use hammeregg.Core.Wire.{IsCodec}
use hammeregg.Rooster.Task.{Env, Shared}
use hammeregg.Rooster.Server.Roles.{Roles, IsSorted, Owns, Agree, Owns-mono, All-Owns-mono}
use hammeregg.Rooster.Server.Kept.{connection_step-Keeps}
use hammeregg.Rooster.Server.{
  Connection, handshaking, Input, System, Action, accept, wake, start, run, system_step, wake_at,
}

All-append {ℓ κ} :
    {A : Type ℓ} (P : A → Type κ) (xs : List A) (x : A) → All P xs → P x → All P (xs ++ x ∷ [])
All-append P [] x all p = (p, tt)
All-append P (y ∷ ys) x all p = (all.0, All-append P ys x all.1 p)

module _ ⦃env : Env⦄ where
  -- The channels have roles: every desktop in the map has the channel of a desktop and its peers
  -- have channels of remotes, every running task reads from a channel of its own role, and every
  -- packet that was sent to a desktop's channel is an offer, and to a remote's channel an answer.
  pub record IsOrderly (y : System) : Type 0 where
    pub role : Roles
    pub sorted : IsSorted role y.shared
    pub owned : All (Owns role y.shared.next_channel) y.connections

  start-IsOrderly : IsOrderly start
  unfolding HashMap.get
  start-IsOrderly = record {
    role = λ k. true;
    sorted = record {
      homes = λ name d found. cc;
      peers = λ name d id tx found joined. cc;
      sends = tt;
    };
    owned = tt;
  }

module _ ⦃env : Env⦄ (law : IsCodec env.packets) where
  wake_at-Keeps :
      (role : Roles) (n : ℕ) (input : Input) (s : Shared) (cs : List Connection)
      → IsSorted role s
      → All (Owns role s.next_channel) cs
      → (role' : Roles) × Agree role role' s.next_channel
        × (s.next_channel ≤ (wake_at n input s cs).0.next_channel)
        × IsSorted role' (wake_at n input s cs).0
        × All (Owns role' (wake_at n input s cs).0.next_channel) (wake_at n input s cs).1
  unfolding wake_at
  wake_at-Keeps role n input s [] v o = (role, λ k h. refl, omega arith, v, tt)
  wake_at-Keeps role zero input s (c ∷ cs) v o =
      let (role', agree, more, v', o') = connection_step-Keeps law role s v c input o.0 in
      (role', agree, more, v', (o', All-Owns-mono more agree cs o.1))
  wake_at-Keeps role (suc n) input s (c ∷ cs) v o =
      let (role', agree, more, v', os) = wake_at-Keeps role n input s cs v o.1 in
      (role', agree, more, v', (Owns-mono more agree c o.0, os))

  system_step-IsOrderly : (y : System) (a : Action) → IsOrderly y → IsOrderly (system_step y a)
  unfolding system_step
  system_step-IsOrderly y accept h = record {
    role = h.role;
    sorted = h.sorted;
    owned = All-append _ y.connections handshaking h.owned tt;
  }
  system_step-IsOrderly y (wake n input) h =
      let (role', agree, more, v, os) =
        wake_at-Keeps h.role n input y.shared y.connections h.sorted h.owned in
      record { role = role'; sorted = v; owned = os }

  run-IsOrderly : (y : System) (schedule : List Action) → IsOrderly y → IsOrderly (run y schedule)
  unfolding run
  run-IsOrderly y [] h = h
  run-IsOrderly y (a ∷ schedule) h =
      run-IsOrderly (system_step y a) schedule (system_step-IsOrderly y a h)

  -- In every interleaving of any number of connections, whatever they send, if the encoding reads
  -- back what it wrote, every channel has one role: the desktops in the map have channels of
  -- desktops and their peers channels of remotes, every running task reads from a channel of its
  -- own role, and every packet that was sent to a desktop is an offer and every packet that was
  -- sent to a remote is an answer.
  pub run-start-IsOrderly : (schedule : List Action) → IsOrderly (run start schedule)
  run-start-IsOrderly schedule = run-IsOrderly start schedule start-IsOrderly
