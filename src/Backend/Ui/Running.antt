-- ===== src/Backend/Ui/Running.antt =====
-- hammer/hammeregg_backend/src/ui/running.rs
use hammeregg.Prelude.{
  String, str_append, List, [], ◌∷◌, Bool, true, false, Result, ok, err, panic, Option, none, some,
}
use hammeregg.Prelude.Stateful.{◌>>=◌, ◌>>◌, pure, lift, modify}
use hammeregg.Core.Packet.{Bytes}
use hammeregg.Backend.Stream.{MonitorBounds}
use hammeregg.Backend.Ui.Platform.{
  Platform, WorkThread, Frame, Monitor, Desk, Background, serve, report_panic, spawn,
  RemotePassword,
}
use hammeregg.Backend.Ui.Key.{remote_password, save}
use hammeregg.Backend.Ui.Screen.{RunningScreen, running, Next, next}

unfoldable pub connected_label : String → String
connected_label desktop_name =
    str_append "Connected to signalling server as '" (str_append desktop_name "'.")

module _ ⦃platform : Platform⦄ where
  -- `primary_monitor().or_else(|| available_monitors().next())`
  abbrev pub chosen_monitor : Option Monitor → List Monitor → Option Monitor
  chosen_monitor (some monitor) available = some monitor
  chosen_monitor none [] = none
  chosen_monitor none (monitor ∷ available) = some monitor

  unfoldable pub logical_bounds : Monitor → MonitorBounds
  logical_bounds monitor =
      let (x, y) = monitor.position in
      let (width, height) = monitor.size in
      let scale = monitor.scale_factor in
      record {
        x = platform.to_logical_offset scale x;
        y = platform.to_logical_offset scale y;
        w = platform.to_logical_size scale width;
        h = platform.to_logical_size scale height;
      }

  -- The bounds of the monitor; there has to be one.
  unfoldable pub monitor_bounds : Frame → Result MonitorBounds
  unfolding logical_bounds
  monitor_bounds frame = elim (chosen_monitor frame.primary_monitor frame.available_monitors) [
    | some monitor ↦ ok (logical_bounds monitor)
    | none ↦ panic
  ]

  -- The task that answers offers, and the one that reports its panic.
  unfoldable pub start_serving :
      WorkThread
      → platform.Wss
      → platform.PrivateKey × platform.PrivateKey
      → MonitorBounds
      → Desk (Unit {0})
  start_serving work_thread wss (home_private_key, remote_private_key) bounds = do
    join_handle ←
        spawn (
          serve work_thread wss home_private_key (platform.to_public_key remote_private_key) bounds)
    reporter ← spawn (report_panic work_thread join_handle)
    pure tt

  unfoldable pub new :
      Frame
      → WorkThread
      → String
      → platform.Wss
      → platform.PrivateKey × platform.PrivateKey
      → Desk RunningScreen
  unfolding monitor_bounds start_serving remote_password connected_label
  new frame work_thread desktop_name wss password = do
    bounds ← lift (monitor_bounds frame)
    start_serving work_thread wss password bounds
    remote ← lift (remote_password password)
    pure (record {
      work_thread = work_thread;
      connected_label = connected_label desktop_name;
      password = some remote;
      error_msg = none;
    })

  abbrev pub wrote : String → Bytes → Background → Background
  wrote file bson b = record b { files = (file, bson) ∷ b.files }

  -- What the outcome of the `try` block makes of the screen.
  unfoldable pub saved : String → RunningScreen → Result Bytes → Desk RunningScreen
  saved file screen (ok bson) = do
    modify (wrote file bson)
    pure (record screen { password = none })
  saved file screen (err e) = pure (record screen { error_msg = some (platform.display e) })
  saved file screen panic = lift panic

  -- The password is there: the button, and the file of the dialog.
  unfoldable pub offer_password :
      Frame → RunningScreen → RemotePassword → Bool → Option String → Desk RunningScreen
  unfolding save saved
  offer_password frame screen password true (some file) =
      saved file screen (save frame file password)
  offer_password frame screen password true none = pure screen
  offer_password frame screen password false file = pure screen

  -- The screen after its update.
  unfoldable pub updated : Frame → RunningScreen → Desk RunningScreen
  unfolding offer_password
  updated frame screen = elim screen.password [
    | some password ↦ offer_password frame screen password (frame.button true) frame.save_file
    | none ↦ pure screen
  ]

  unfoldable pub update : Frame → RunningScreen → Desk Next
  unfolding updated
  update frame screen = do shown ← updated frame screen; pure (next (running shown) false)
