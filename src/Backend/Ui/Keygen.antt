-- ===== src/Backend/Ui/Keygen.antt =====
-- hammer/hammeregg_backend/src/ui/keygen.rs.
use hammeregg.Prelude.{String, Bool, true, false, Option, some, none}
use hammeregg.Prelude.Stateful.{◌>>=◌, pure}
use hammeregg.Backend.Ui.Platform.{Platform, Frame, Desk, Poll, waiting, canceled, received}
use hammeregg.Backend.Ui.Screen.{KeygenScreen, setup, keygen, running, Next, next}
use hammeregg.Backend.Ui.Setup
use hammeregg.Backend.Ui.Running

module _ ⦃platform : Platform⦄ where
  -- The screen while there is no error, with what `try_recv` answers.
  unfoldable pub take_keys :
      Frame → KeygenScreen → Poll (platform.PrivateKey × platform.PrivateKey) → Desk Next
  unfolding Running.new
  take_keys frame screen waiting = pure (next (keygen screen) false)
  take_keys frame screen canceled = pure (
      next (keygen (record screen { error_msg = some "Error: Key generation thread panicked" }))
        false)
  take_keys frame screen (received password) = do
    shown ← Running.new frame screen.work_thread screen.desktop_name screen.wss password
    pure (next (running shown) true)

  -- The screen with an error, with whether `Back` was clicked.
  unfoldable pub go_back : KeygenScreen → Bool → Next
  go_back screen true =
      next
        (setup (
          Setup.recover screen.work_thread screen.desktop_name screen.signalling_server_addr
            screen.extra_ca))
        true
  go_back screen false = next (keygen screen) false

  -- What the error, if there is one, makes of the update.
  unfoldable pub show_keys : Frame → KeygenScreen → Option String → Desk Next
  unfolding take_keys go_back
  show_keys frame screen (some text) = pure (go_back screen (frame.button true))
  show_keys frame screen none = take_keys frame screen (frame.keys screen.password_rx)

  unfoldable pub update : Frame → KeygenScreen → Desk Next
  unfolding show_keys
  update frame screen = show_keys frame screen screen.error_msg
