-- ===== src/Backend/Ui/Packing.antt =====
-- hammer/hammeregg_backend/src/ui/mod.rs: when the window is resized.
use hammeregg.Prelude.{
  String, Bool, true, false, not, ◌≡◌, refl, sym, ◌∙◌, ap, arith, Option, none, some, Result, ok,
  err, panic, unwrap, subst,
}
use hammeregg.Prelude.Stateful.{lift, ◌>>=◌, pure}
use hammeregg.Prelude.Stateful.Triples.{Triple, After, Triple-bind, Triple-pure}
use hammeregg.Backend.Ui.Platform.{
  Platform, Frame, Poll, waiting, canceled, received, Background, Desk,
}
use hammeregg.Backend.Ui.Screen.{
  SetupScreen, KeygenScreen, Screen, setup, keygen, running, work_thread_init_failed, Next, next,
  exit,
}
use hammeregg.Backend.Ui.Setup
use hammeregg.Backend.Ui.Setup.{
  submit, after_fields, check_signalling_connection, take_connection, connected, is_none, edit,
  validate_input,
}
use hammeregg.Backend.Ui.Keygen
use hammeregg.Backend.Ui.Running
use hammeregg.Backend.Ui.App.{
  Ui, Shown, shown, exited, update_screen, failed_screen, update, show_next,
}

some_inj : {A : Type 0} {a b : A} → some a ≡ some b → a ≡ b
some_inj h = ground arith

module _ ⦃platform : Platform⦄ where
  -- Two screens of one type.
  abbrev pub same_kind : Screen → Screen → Bool
  same_kind (setup s) (setup t) = true
  same_kind (keygen s) (keygen t) = true
  same_kind (running s) (running t) = true
  same_kind work_thread_init_failed work_thread_init_failed = true
  same_kind _ _ = false

  -- An update asks for the window to be packed exactly when it changes the type of the screen.
  abbrev PacksFor : Screen → Next → Background → Type 0
  PacksFor screen (next screen' pack_next_frame) b =
      pack_next_frame ≡ not (same_kind screen screen')
  PacksFor screen (exit code) b = Unit

  -- What holds of the results of an action that returns.
  abbrev Returns : {A : Type 0} → Desk A → (A → Background → Type 0) → Type 0
  Returns m q = Triple (λ b. Unit) m q (λ b. Unit)

  Returns-anything : {A : Type 0} (m : Desk A) → Returns m (λ a b. Unit)
  Returns-anything {A} m = record { after = λ b h. go (m b) }
    where
      go : (x : Result A × Background) → After (λ a b. Unit) (λ b. Unit) x
      go (ok a, b) = tt
      go (err e, b) = tt
      go (panic, b) = tt

  -- Whatever comes before.
  Returns-then :
      {A B : Type 0} {q : B → Background → Type 0} (m : Desk A) (f : A → Desk B)
      → ((a : A) → Returns (f a) q)
      → Returns (m >>= f) q
  Returns-then m f rest = Triple-bind m f (Returns-anything m) rest

  submit-PacksFor :
      (screen screen' : SetupScreen) (valid : Bool)
      → Returns (submit (valid, screen')) (PacksFor (setup screen))
  unfolding submit
  submit-PacksFor screen screen' true =
      Returns-then (Setup.start_signalling_connection screen') _
        λ started. Triple-pure _ λ b h. refl
  submit-PacksFor screen screen' false = Triple-pure _ λ b h. refl

  connected-PacksFor :
      (screen : SetupScreen) (answer : Option platform.Wss × SetupScreen)
      → Returns (connected answer) (PacksFor (setup screen))
  unfolding connected Setup.new_keygen
  connected-PacksFor screen (none, screen') = Triple-pure _ λ b h. refl
  connected-PacksFor screen (some wss, screen') = record { after = λ b h. refl }

  after_fields-PacksFor :
      (frame : Frame) (screen screen' : SetupScreen) (enabled clicked : Bool)
      → Returns (after_fields frame enabled clicked screen') (PacksFor (setup screen))
  unfolding after_fields
  after_fields-PacksFor frame screen screen' true true = submit-PacksFor screen _ _
  after_fields-PacksFor frame screen screen' true false = Triple-pure _ λ b h. refl
  after_fields-PacksFor frame screen screen' false clicked =
      Returns-then (lift (check_signalling_connection frame screen')) connected
        λ answer. connected-PacksFor screen answer

  take_keys-PacksFor :
      (frame : Frame) (screen : KeygenScreen)
      (answer : Poll (platform.PrivateKey × platform.PrivateKey))
      → Returns (Keygen.take_keys frame screen answer) (PacksFor (keygen screen))
  unfolding Keygen.take_keys
  take_keys-PacksFor frame screen waiting = Triple-pure _ λ b h. refl
  take_keys-PacksFor frame screen canceled = Triple-pure _ λ b h. refl
  take_keys-PacksFor frame screen (received keys) =
      Returns-then (Running.new frame screen.work_thread screen.desktop_name screen.wss keys) _
        λ shown_screen. Triple-pure _ λ b h. refl

  go_back-PacksFor :
      (screen : KeygenScreen) (clicked : Bool) (b : Background)
      → PacksFor (keygen screen) (Keygen.go_back screen clicked) b
  unfolding Keygen.go_back
  go_back-PacksFor screen true b = refl
  go_back-PacksFor screen false b = refl

  shown_keys-PacksFor :
      (frame : Frame) (screen : KeygenScreen) (text : Option String)
      → Returns (Keygen.show_keys frame screen text) (PacksFor (keygen screen))
  unfolding Keygen.show_keys
  shown_keys-PacksFor frame screen none = take_keys-PacksFor frame screen _
  shown_keys-PacksFor frame screen (some text) = Triple-pure _ λ b h. go_back-PacksFor screen _ b

  failed_screen-PacksFor :
      (clicked : Bool) (b : Background) → PacksFor work_thread_init_failed (failed_screen clicked) b
  unfolding failed_screen
  failed_screen-PacksFor true b = tt
  failed_screen-PacksFor false b = refl

  update_screen-PacksFor :
      (frame : Frame) (screen : Screen) → Returns (update_screen frame screen) (PacksFor screen)
  unfolding update_screen Setup.update Keygen.update Running.update
  update_screen-PacksFor frame (setup screen) =
      after_fields-PacksFor frame screen
        (edit frame (is_none screen.signalling_connection_init) screen)
        (is_none screen.signalling_connection_init)
        (frame.button (is_none screen.signalling_connection_init))
  update_screen-PacksFor frame (keygen screen) = shown_keys-PacksFor frame screen screen.error_msg
  update_screen-PacksFor frame (running screen) =
      Returns-then (Running.updated frame screen) _ λ shown_screen. Triple-pure _ λ b h. refl
  update_screen-PacksFor frame work_thread_init_failed =
      Triple-pure _ λ b h. failed_screen-PacksFor (frame.button true) b

  -- The screen and the flag that a frame leaves, and whether it has resized the window.
  abbrev Follows : Ui → Screen → Shown → Background → Type 0
  Follows ui screen (shown ui' resized) b =
      (resized ≡ not ui.packed)
      × ((screen' : Screen) × (ui'.current_screen ≡ some screen')
          × (ui'.packed ≡ same_kind screen screen'))
  Follows ui screen (exited code) b = Unit

  show_next-Follows :
      (ui : Ui) (screen : Screen) (answer : Next) (b : Background)
      → PacksFor screen answer b
      → Follows ui screen (show_next (record ui { current_screen = none }) answer) b
  unfolding show_next
  show_next-Follows ui screen (next screen' true) b h = (refl, (screen', refl, ground (arith, h)))
  show_next-Follows ui screen (next screen' false) b h = (refl, (screen', refl, ground (arith, h)))
  show_next-Follows ui screen (exit code) b h = tt

  update-Follows :
      (frame : Frame) (ui : Ui) (screen : Screen)
      → ui.current_screen ≡ some screen
      → Returns (update frame ui) (Follows ui screen)
  unfolding update
  update-Follows frame ui screen there =
      subst
        (λ r.
          Returns
            (lift (unwrap r) >>= λ s. update_screen frame s >>= λ answer.
              pure (show_next (record ui { current_screen = none }) answer))
            (Follows ui screen))
        (sym there)
        (Triple-bind (update_screen frame screen) _ (update_screen-PacksFor frame screen)
          λ answer. Triple-pure _ λ b h. show_next-Follows ui screen answer b h)

  update_shown :
      (frame : Frame) (ui ui' : Ui) (screen : Screen) (b b' : Background) (resized : Bool)
      → ui.current_screen ≡ some screen
      → update frame ui b ≡ (ok (shown ui' resized), b')
      → Follows ui screen (shown ui' resized) b'
  update_shown frame ui ui' screen b b' resized there e =
      subst (After (Follows ui screen) (λ b. Unit)) e
        ((update-Follows frame ui screen there).after b tt)

  -- Of two frames in a row, the second resizes the window exactly when the first has replaced
  -- the screen by one of another type.
  pub resized_iff_changed :
      (frame frame' : Frame) (ui ui' ui'' : Ui) (screen screen' : Screen) (b b' b'' : Background)
      (resized resized' : Bool)
      → ui.current_screen ≡ some screen
      → update frame ui b ≡ (ok (shown ui' resized), b')
      → ui'.current_screen ≡ some screen'
      → update frame' ui' b' ≡ (ok (shown ui'' resized'), b'')
      → resized' ≡ not (same_kind screen screen')
  resized_iff_changed frame frame' ui ui' ui'' screen screen' b b' b'' resized resized' there e
        there' e' =
      let (first, (s, kept, packed)) = update_shown frame ui ui' screen b b' resized there e in
      let (second, (s', kept', packed')) =
        update_shown frame' ui' ui'' screen' b' b'' resized' there' e' in
      second ∙ ap not (packed ∙ ap (same_kind screen) (some_inj (sym kept ∙ there')))
