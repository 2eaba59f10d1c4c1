-- ===== src/Backend/Ui/Platform.antt =====
-- hammer/hammeregg_backend/src/ui: what the screens call and do not implement, what a frame tells
-- them, and what they start; hammer/hammeregg_backend/src/work.rs, `spawn_task`.
use hammeregg.Prelude.{
  ℕ, String, List, [], ◌∷◌, Bool, Result, ok, err, panic, Error, Option, none, some, length, nat_eq,
  ◌⊎◌, inl, inr, if◌then◌else◌,
}
use hammeregg.Prelude.Int.{ℤ}
use hammeregg.Prelude.Net.{SocketAddr}
use hammeregg.Prelude.Stateful.{Stateful}
use hammeregg.Core.Packet.{Bytes}
use hammeregg.Backend.Stream.{MonitorBounds}

-- The handle of the runtime of a `WorkThread`.
abbrev pub WorkThread : Type 0
WorkThread = ℕ

-- `RemotePassword`
pub record RemotePassword : Type 0 where
  pub home_public_key : String
  pub remote_private_key : String

-- The types of rsa, tungstenite, egui and winit, and the functions of rsa, bson, anyhow and winit.
pub record Platform : Type 1 where
  pub Wss : Type 0
  pub Rng : Type 0
  pub PrivateKey : Type 0
  pub PublicKey : Type 0
  pub Scale : Type 0
  pub Rgba : Type 0
  pub new_private_key : Rng → ℕ → Result PrivateKey
  pub to_public_key : PrivateKey → PublicKey
  pub to_public_key_pem : PublicKey → Result String
  pub to_pkcs8_pem : PrivateKey → Result String
  pub to_vec : RemotePassword → Result Bytes
  pub display : Error → String
  pub to_logical_offset : Scale → ℤ → ℤ
  pub to_logical_size : Scale → ℕ → ℕ

-- A one-shot channel, by the number of the task or thread that holds its sender.
abbrev pub Receiver : Type 0
Receiver = ℕ

-- What `try_recv` answers: `Ok(None)`, `Err(Canceled)` or `Ok(Some(..))`.
pub data Poll (A : Type 0) : Type 0 where
  waiting : Poll A
  canceled : Poll A
  received : A → Poll A

-- What the receiver sees of a task that has ended: what `tx.send(..)` sent, an error on the left, or
-- that a panic dropped `tx`.
abbrev pub sent : {A : Type 0} → Result A → Poll (Error ⊎ A)
sent (ok a) = received (inr a)
sent (err e) = received (inl e)
sent panic = canceled

-- The same for a thread that sends what it has computed.
abbrev pub thread_sent : {A : Type 0} → Result A → Poll A
thread_sent (ok a) = received a
thread_sent (err e) = canceled
thread_sent panic = canceled

module _ ⦃platform : Platform⦄ where
  pub record Monitor : Type 0 where
    pub position : ℤ × ℤ
    pub size : ℕ × ℕ
    pub scale_factor : platform.Scale

  -- The outside of a frame: what the text fields and the button of a screen do, enabled or not, what
  -- the receivers show, and what winit, the file dialog and `std::fs::write` answer.
  pub record Frame : Type 0 where
    pub name_field : Bool → String → String
    pub server_field : Bool → String → String
    pub ca_field : Bool → String → String
    pub button : Bool → Bool
    pub connection : Receiver → Poll (Error ⊎ platform.Wss)
    pub keys : Receiver → Poll (platform.PrivateKey × platform.PrivateKey)
    pub primary_monitor : Option Monitor
    pub available_monitors : List Monitor
    pub save_file : Option String
    pub write : String → Bytes → Result (Unit {0})

  -- The tasks and threads: `init_signalling_connection`, `gen_home_and_remote_keys`,
  -- `handle_signalling_requests`, and the task that waits for the end of another.
  pub data Spawn : Type 0 where
    connect : WorkThread → String → SocketAddr → Option String → Spawn
    generate_keys : Spawn
    serve :
        WorkThread → platform.Wss → platform.PrivateKey → platform.PublicKey → MonitorBounds → Spawn
    report_panic : WorkThread → ℕ → Spawn

  -- What was started, and the files that were written, the newest first.
  pub record Background : Type 0 where
    pub spawned : List Spawn
    pub files : List (String × Bytes)

  abbrev pub Desk : Type 0 → Type 0
  Desk = Stateful Background

  -- `spawn_task`, `spawn` and `std::thread::spawn`, with the number of what was started.
  abbrev pub spawn : Spawn → Desk ℕ
  spawn task b = (ok (length b.spawned), record b { spawned = task ∷ b.spawned })

  abbrev pub spawned_at : ℕ → List Spawn → Option Spawn
  spawned_at n [] = none
  spawned_at n (task ∷ tasks) =
      let rest = spawned_at n tasks in if nat_eq n (length tasks) then some task else rest
