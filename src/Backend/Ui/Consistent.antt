-- ===== src/Backend/Ui/Consistent.antt =====
-- hammer/hammeregg_backend/src/ui: what ties a screen to the tasks that were started for it and to
-- the files that were written.
pub mod Setup
pub mod Running
pub mod Screens
pub mod Pending
pub mod Failed
pub mod Session
use hammeregg.Prelude.{
  ℕ, ◌<◌, String, List, [], ◌∷◌, ◌≡◌, refl, false, arith, Option, none, some, Result, ok, panic,
  length, nat_eq, inr,
}
use hammeregg.Prelude.Text.{chars, is_blank}
use hammeregg.Prelude.Net.{SocketAddr}
use hammeregg.Core.Packet.{Bytes}
use hammeregg.Backend.Stream.{MonitorBounds}
use hammeregg.Backend.Offer.Replies.{IsCalm}
use hammeregg.Backend.Ui.Platform.{
  Platform, WorkThread, Frame, Monitor, Spawn, connect, generate_keys, serve, report_panic,
  Background, RemotePassword, spawned_at, received,
}
use hammeregg.Backend.Ui.Screen.{
  SetupScreen, RunningScreen, KeygenScreen, Screen, setup, keygen, running, work_thread_init_failed,
  Next, next, exit,
}
use hammeregg.Backend.Ui.Setup.{try_parse_signalling_server_addr}
use hammeregg.Backend.Ui.Setup.Validation.{IsName}
use hammeregg.Backend.Ui.Running.{connected_label, chosen_monitor}

-- The path of a root certificate is not blank.
abbrev pub IsKept : Option String → Type 0
IsKept none = Unit
IsKept (some path) = is_blank (chars path) ≡ false

module _ ⦃platform : Platform⦄ where
  -- The receiver is that of a task that connects with what the form shows.
  abbrev pub IsPending : Option ℕ → SetupScreen → Background → Type 0
  IsPending none screen b = Unit
  IsPending (some rx) screen b =
      (addr : SocketAddr) × (try_parse_signalling_server_addr screen ≡ some addr)
      × (spawned_at rx b.spawned
          ≡ some (connect screen.work_thread screen.desktop_name addr screen.extra_ca))
      × IsName (chars screen.desktop_name)

  -- The keys can be encoded, and what bson cannot write is an error.
  pub record Encodes : Type 0 where
    pub public_pem :
        (key : platform.PublicKey) → (pem : String) × (platform.to_public_key_pem key ≡ ok pem)
    pub private_pem :
        (key : platform.PrivateKey) → (pem : String) × (platform.to_pkcs8_pem key ≡ ok pem)
    pub to_vec : (password : RemotePassword) → IsCalm (platform.to_vec password)

  -- A frame of a desktop that has a monitor: a disabled field keeps its text, and a file that cannot
  -- be written is an error.
  pub record IsSound (frame : Frame) : Type 0 where
    pub name_field : (text : String) → frame.name_field false text ≡ text
    pub server_field : (text : String) → frame.server_field false text ≡ text
    pub ca_field : (text : String) → frame.ca_field false text ≡ text
    pub monitor :
        (monitor : Monitor) × (chosen_monitor frame.primary_monitor frame.available_monitors
          ≡ some monitor)
    pub write : (file : String) (bson : Bytes) → IsCalm (frame.write file bson)

  spawned_at-lt :
      (n : ℕ) (tasks : List Spawn) (task : Spawn)
      → spawned_at n tasks ≡ some task
      → n < length tasks
  spawned_at-lt n [] task h = cc
  spawned_at-lt n (t ∷ tasks) task h = ground (arith, spawned_at-lt n tasks task)

  -- What was started stays.
  pub spawned_at-later :
      (n : ℕ) (tasks : List Spawn) (task later : Spawn)
      → spawned_at n tasks ≡ some task
      → spawned_at n (later ∷ tasks) ≡ some task
  spawned_at-later n tasks task later h = ground (arith, spawned_at-lt n tasks task h)

  pub spawned_at-newest :
      (tasks : List Spawn) (task : Spawn) → spawned_at (length tasks) (task ∷ tasks) ≡ some task
  spawned_at-newest tasks task = ground arith

module _ ⦃platform : Platform⦄ (Seen : Frame → Type 0) where
  -- A task was started to introduce a desktop of the name, which is one, to a server, and a frame has
  -- seen that it came back with the connection.
  abbrev pub IsIntroduced : WorkThread → String → platform.Wss → Background → Type 0
  IsIntroduced work_thread name wss b =
      (i : ℕ) × (addr : SocketAddr) × (extra_ca : Option String) × (frame : Frame) × (spawned_at i
          b.spawned
        ≡ some (connect work_thread name addr extra_ca))
      × IsName (chars name)
      × Seen frame
      × (frame.connection i ≡ received (inr wss))

  -- A task answers offers over the connection with the private half of one pair of keys, whose public
  -- half the password has, and with the public half of the other, whose private half the password has.
  abbrev pub Fits : WorkThread → platform.Wss → RemotePassword → Background → Type 0
  Fits work_thread wss password b =
      (i : ℕ) × (home : platform.PrivateKey) × (remote : platform.PrivateKey)
      × (bounds : MonitorBounds) × (spawned_at i b.spawned
          ≡ some (serve work_thread wss home (platform.to_public_key remote) bounds))
      × (platform.to_public_key_pem (platform.to_public_key home) ≡ ok password.home_public_key)
      × (platform.to_pkcs8_pem remote ≡ ok password.remote_private_key)

  -- The password is there and no file is, or it was written once.
  abbrev pub IsSaved : WorkThread → platform.Wss → Option RemotePassword → Background → Type 0
  IsSaved work_thread wss (some password) b = Fits work_thread wss password b × (b.files ≡ [])
  IsSaved work_thread wss none b =
      (file : String) × (bson : Bytes) × (password : RemotePassword) × Fits work_thread wss password
        b
      × (platform.to_vec password ≡ ok bson)
      × (b.files ≡ (file, bson) ∷ [])

  -- The last screen shows a name, under which the connection was made that offers are answered over.
  abbrev pub IsRunning : RunningScreen → Background → Type 0
  IsRunning s b =
      (name : String) × (wss : platform.Wss) × (s.connected_label ≡ connected_label name)
      × IsIntroduced s.work_thread name wss b
      × IsSaved s.work_thread wss s.password b

  abbrev pub IsConsistent : Screen → Background → Type 0
  IsConsistent (setup s) b =
      IsKept s.extra_ca × IsPending s.signalling_connection_init s b × (b.files ≡ [])
  IsConsistent (keygen s) b =
      IsKept s.extra_ca
      × IsIntroduced s.work_thread s.desktop_name s.wss b
      × (spawned_at s.password_rx b.spawned ≡ some generate_keys)
      × (b.files ≡ [])
  IsConsistent (running s) b = IsRunning s b
  IsConsistent work_thread_init_failed b = ⊥

  abbrev pub NextIsConsistent : Next → Background → Type 0
  NextIsConsistent (next screen pack) b = IsConsistent screen b
  NextIsConsistent (exit code) b = ⊥

  pub IsIntroduced-later :
      (work_thread : WorkThread) (name : String) (wss : platform.Wss) (later : Spawn)
      (b : Background)
      → IsIntroduced work_thread name wss b
      → IsIntroduced work_thread name wss (record b { spawned = later ∷ b.spawned })
  IsIntroduced-later work_thread name wss later b
        (i, addr, extra_ca, frame, h, is_name, seen, there) =
      (i, addr, extra_ca, frame, spawned_at-later i b.spawned _ later h, is_name, seen, there)
