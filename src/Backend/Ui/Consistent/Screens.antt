-- ===== src/Backend/Ui/Consistent/Screens.antt =====
-- hammer/hammeregg_backend/src/ui: what ties a screen to its tasks is kept by every update.
use hammeregg.Prelude.{String, Bool, true, false, Option, none, some}
use hammeregg.Prelude.Stateful.Triples.{Triple, Triple-bind}
use hammeregg.Backend.Ui.Platform.{Platform, Frame, Background}
use hammeregg.Backend.Ui.Screen.{
  KeygenScreen, RunningScreen, Screen, setup, keygen, running, work_thread_init_failed,
}
use hammeregg.Backend.Ui.Keygen
use hammeregg.Backend.Ui.Running
use hammeregg.Backend.Ui.Running.{
  connected_label, monitor_bounds, logical_bounds, chosen_monitor, start_serving, saved,
  offer_password, updated,
}
use hammeregg.Backend.Ui.App.{update_screen}
use hammeregg.Backend.Ui.Consistent.{IsConsistent, NextIsConsistent, IsSound, Encodes}
use hammeregg.Backend.Ui.Consistent.Setup.{update-IsConsistent}
use hammeregg.Backend.Ui.Consistent.Running.{take_keys-IsConsistent, updated-IsConsistent}

module _ ⦃platform : Platform⦄ (Seen : Frame → Type 0) where
  go_back-IsConsistent :
      (screen : KeygenScreen) (clicked : Bool) (b : Background)
      → IsConsistent Seen (keygen screen) b
      → NextIsConsistent Seen (Keygen.go_back screen clicked) b
  unfolding Keygen.go_back
  go_back-IsConsistent screen true b (kept, introduced, keys, no_files) = (kept, tt, no_files)
  go_back-IsConsistent screen false b h = h

  show_keys-IsConsistent :
      (frame : Frame) (screen : KeygenScreen) (text : Option String)
      → IsSound frame
      → Encodes
      → Triple
          (IsConsistent Seen (keygen screen))
          (Keygen.show_keys frame screen text)
          (NextIsConsistent Seen)
          (λ b. ⊥)
  unfolding Keygen.show_keys
  show_keys-IsConsistent frame screen none sound encodes =
      take_keys-IsConsistent Seen frame screen (frame.keys screen.password_rx) sound encodes
  show_keys-IsConsistent frame screen (some text) sound encodes = record {
    after = go_back-IsConsistent screen (frame.button true);
  }

  running_update-IsConsistent :
      (frame : Frame) (screen : RunningScreen)
      → IsSound frame
      → Encodes
      → Triple
          (IsConsistent Seen (running screen))
          (Running.update frame screen)
          (NextIsConsistent Seen)
          (λ b. ⊥)
  unfolding Running.update
  running_update-IsConsistent frame screen sound encodes =
      Triple-bind (updated frame screen) _ (updated-IsConsistent Seen frame screen sound encodes)
        λ shown. record { after = λ b h. h }

  -- Every update of a session that has a work thread returns another screen of it, and keeps the tie.
  pub update_screen-IsConsistent :
      (frame : Frame) (screen : Screen)
      → Seen frame
      → IsSound frame
      → Encodes
      → Triple
          (IsConsistent Seen screen)
          (update_screen frame screen)
          (NextIsConsistent Seen)
          (λ b. ⊥)
  unfolding update_screen Keygen.update
  update_screen-IsConsistent frame (setup screen) seen sound encodes =
      update-IsConsistent Seen frame screen seen sound
  update_screen-IsConsistent frame (keygen screen) seen sound encodes =
      show_keys-IsConsistent frame screen screen.error_msg sound encodes
  update_screen-IsConsistent frame (running screen) seen sound encodes =
      running_update-IsConsistent frame screen sound encodes
  update_screen-IsConsistent frame work_thread_init_failed seen sound encodes = record {
    after = λ b h. absurd h;
  }
