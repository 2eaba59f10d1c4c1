-- ===== src/Backend/Ui/App.antt =====
-- hammer/hammeregg_backend/src/ui/mod.rs
use hammeregg.Prelude.{
  ℕ, String, List, [], ◌∷◌, Bool, true, false, not, Result, ok, err, panic, Option, none, some,
  unwrap,
}
use hammeregg.Prelude.Int.{ℤ, negsuc}
use hammeregg.Prelude.Stateful.{◌>>=◌, pure, lift}
use hammeregg.Backend.Ui.Platform.{Platform, Frame, Desk, Background}
use hammeregg.Backend.Ui.Screen.{
  Screen, setup, keygen, running, work_thread_init_failed, Next, next, exit,
}
use hammeregg.Backend.Ui.Setup
use hammeregg.Backend.Ui.Keygen
use hammeregg.Backend.Ui.Running

module _ ⦃platform : Platform⦄ where
  -- `WorkThreadInitFailedScreen`, with whether `Exit` was clicked.
  unfoldable pub failed_screen : Bool → Next
  failed_screen true = exit (negsuc 0)
  failed_screen false = next work_thread_init_failed false

  -- `Screen::update`
  unfoldable pub update_screen : Frame → Screen → Desk Next
  unfolding Setup.update Keygen.update Running.update failed_screen
  update_screen frame (setup screen) = Setup.update frame screen
  update_screen frame (keygen screen) = Keygen.update frame screen
  update_screen frame (running screen) = Running.update frame screen
  update_screen frame work_thread_init_failed = pure (failed_screen (frame.button true))

  pub record Ui : Type 0 where
    pub current_screen : Option Screen
    pub packed : Bool
    pub clear_color : Option platform.Rgba

  -- `UI::new`
  abbrev pub new : Screen → Ui
  new screen = record { current_screen = some screen; packed = false; clear_color = none }

  -- `UI::setup`
  abbrev pub set_up : platform.Rgba → Ui → Ui
  set_up fill ui = record ui { clear_color = some fill }

  -- `UI::clear_color`
  abbrev pub clear_color : Ui → Result platform.Rgba
  clear_color ui = unwrap ui.clear_color

  -- A frame of the window: the app with whether the window was resized in it, or the exit code.
  pub data Shown : Type 0 where
    shown : Ui → Bool → Shown
    exited : ℤ → Shown

  -- The window is packed for the screen unless it is already.
  abbrev pub pack : Ui → Ui
  pack ui = record ui { packed = true }

  abbrev pub keep_screen : Screen → Bool → Ui → Ui
  keep_screen new_screen true ui = record ui { current_screen = some new_screen; packed = false }
  keep_screen new_screen false ui = record ui { current_screen = some new_screen }

  -- The end of `UI::update`, with what the screen answered.
  unfoldable pub show_next : Ui → Next → Shown
  show_next ui (next new_screen pack_next_frame) =
      shown (keep_screen new_screen pack_next_frame (pack ui)) (not ui.packed)
  show_next ui (exit code) = exited code

  unfoldable pub update : Frame → Ui → Desk Shown
  unfolding update_screen show_next
  update frame ui = do
    screen ← lift (unwrap ui.current_screen)
    answer ← update_screen frame screen
    pure (show_next (record ui { current_screen = none }) answer)

  -- The screen that `show_ui` begins with: what `WorkThread::new` returned, and the name that the
  -- generator answers.
  unfoldable pub first_screen : Result ℕ → Option String → Result Screen
  first_screen (ok work_thread) generated = elim (Setup.new work_thread generated) [
    | ok screen ↦ ok (setup screen)
    | err e ↦ err e
    | panic ↦ panic
  ]
  first_screen (err e) generated = ok work_thread_init_failed
  first_screen panic generated = panic

  -- The window after some frames, with whether each has resized it, or the exit code.
  pub data End : Type 0 where
    drawn : Ui → List Bool → End
    closed : ℤ → End

  abbrev pub and_resized : Bool → End → End
  and_resized resized (drawn ui others) = drawn ui (resized ∷ others)
  and_resized resized (closed code) = closed code

  abbrev pub go_on : (Ui → Desk End) → Shown → Desk End
  go_on rest (shown ui resized) = do end ← rest ui; pure (and_resized resized end)
  go_on rest (exited code) = pure (closed code)

  -- The frames that `run_native` draws, one after the other.
  unfoldable pub draw : List Frame → Ui → Desk End
  unfolding update
  draw [] ui = pure (drawn ui [])
  draw (frame ∷ frames) ui = do result ← update frame ui; go_on (draw frames) result

  -- Nothing was started, and no file was written.
  abbrev pub untouched : Background
  untouched = record { spawned = []; files = [] }
