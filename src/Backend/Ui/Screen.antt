-- ===== src/Backend/Ui/Screen.antt =====
-- hammer/hammeregg_backend/src/ui/screen.rs, and the screens of setup.rs, keygen.rs, running.rs and
-- mod.rs.
use hammeregg.Prelude.{String, Bool, Option}
use hammeregg.Prelude.Int.{ℤ}
use hammeregg.Backend.Ui.Platform.{Platform, WorkThread, Receiver, RemotePassword}

pub record SetupScreen : Type 0 where
  pub work_thread : WorkThread
  pub desktop_name : String
  pub signalling_server_addr : String
  pub extra_ca : Option String
  pub error_msg : Option String
  pub signalling_connection_init : Option Receiver

pub record RunningScreen : Type 0 where
  pub work_thread : WorkThread
  pub connected_label : String
  pub password : Option RemotePassword
  pub error_msg : Option String

module _ ⦃platform : Platform⦄ where
  pub record KeygenScreen : Type 0 where
    pub work_thread : WorkThread
    pub desktop_name : String
    pub signalling_server_addr : String
    pub extra_ca : Option String
    pub wss : platform.Wss
    pub error_msg : Option String
    pub password_rx : Receiver

  -- `Box<dyn Screen>`
  pub data Screen : Type 0 where
    setup : SetupScreen → Screen
    keygen : KeygenScreen → Screen
    running : RunningScreen → Screen
    work_thread_init_failed : Screen

  -- What an update comes to: the screen of the next frame and whether to pack the window for it, or
  -- the end of the process.
  pub data Next : Type 0 where
    next : Screen → Bool → Next
    exit : ℤ → Next
