-- ===== src/Backend/Ui/Setup/Update.antt =====
-- hammer/hammeregg_backend/src/ui/setup.rs: a frame of the form.
use hammeregg.Prelude.{
  String, Bool, true, false, ◌∷◌, ◌≡◌, refl, ap, ◌∙◌, none, some, inl, inr, ok, Option-cases,
  Bool-cases, length,
}
use hammeregg.Prelude.Net.{SocketAddr}
use hammeregg.Backend.Ui.Platform.{Platform, Frame, connect, Background}
use hammeregg.Backend.Ui.Screen.{SetupScreen, next, setup}
use hammeregg.Backend.Ui.Setup.{
  try_parse_signalling_server_addr, validate_input, edit, submit, start_signalling_connection,
  after_fields, update, is_none,
}
use hammeregg.Backend.Ui.Setup.Validation.{IsFilled, validate_input_iff}

module _ ⦃platform : Platform⦄ where
  update_free_eq :
      (frame : Frame) (screen : SetupScreen)
      → screen.signalling_connection_init ≡ none
      → update frame screen ≡ after_fields frame true (frame.button true) (edit frame true screen)
  unfolding update
  update_free_eq frame screen free =
      ap (λ e. after_fields frame e (frame.button e) (edit frame e screen)) (ap is_none free)

  submit_filled :
      (screen : SetupScreen) (addr : SocketAddr) (b : Background)
      → try_parse_signalling_server_addr screen ≡ some addr
      → submit (true, screen) b ≡ (
        ok (
            next
              (setup (record screen { signalling_connection_init = some (length b.spawned) }))
              false),
        record b {
          spawned = connect screen.work_thread screen.desktop_name addr screen.extra_ca ∷ b.spawned;
        },
      )
  unfolding submit start_signalling_connection
  submit_filled screen addr b parsed = rw (submit, start_signalling_connection, parsed) refl

  submit_empty :
      (screen : SetupScreen) (b : Background)
      → submit (false, screen) b ≡ (ok (next (setup screen) false), b)
  unfolding submit
  submit_empty screen b = refl

  validated_filled :
      (screen : SetupScreen)
      → IsFilled screen
      → validate_input screen ≡ (true, record screen { error_msg = none })
  unfolding validate_input
  validated_filled screen filled =
      let (to, from) = (validate_input_iff screen).0 in
      let (clear, unclear) = (validate_input_iff screen).1 in
      let e = from filled in let e' = clear e in λ i. (e i, record screen { error_msg = e' i })

  validated_empty :
      (screen : SetupScreen)
      → ¬ IsFilled screen
      → (text : String) × (validate_input screen ≡ (false, record screen { error_msg = some text }))
  unfolding validate_input
  validated_empty screen empty =
      let (to, from) = (validate_input_iff screen).0 in
      let (clear, unclear) = (validate_input_iff screen).1 in
      elim (Bool-cases (validate_input screen).0) [
        | inl e ↦ absurd (empty (to e))
        | inr e ↦ elim (Option-cases (validate_input screen).1.error_msg) [
          | inl e' ↦ absurd (cc (unclear e'))
          | inr (text, e') ↦ (text, λ i. (e i, record screen { error_msg = e' i }))
        ]
      ]

  -- The form that a frame fills in.
  abbrev pub edited : Frame → SetupScreen → SetupScreen
  edited frame screen = edit frame true screen

  module _ (frame : Frame) (screen : SetupScreen) (b : Background) where
    clicked_frame :
        (c : Bool)
        → screen.signalling_connection_init ≡ none
        → frame.button true ≡ c
        → update frame screen b ≡ after_fields frame true c (edited frame screen) b
    clicked_frame c free e =
        ap (λ m. m b) (update_free_eq frame screen free)
        ∙ ap (λ clicked. after_fields frame true clicked (edited frame screen) b) e

    -- When the button of an unlocked form is clicked and what the frame leaves in the fields is
    -- a name without NUL and an address, exactly one task is started, which connects to that
    -- address under that name with that root certificate; the form waits for it and its error is
    -- gone.
    pub update_starts :
        (addr : SocketAddr)
        → screen.signalling_connection_init ≡ none
        → frame.button true ≡ true
        → IsFilled (edited frame screen)
        → try_parse_signalling_server_addr (edited frame screen) ≡ some addr
        → update frame screen b ≡ (
          ok (
              next
                (setup (record (edited frame screen) {
                  error_msg = none;
                  signalling_connection_init = some (length b.spawned);
                }))
                false),
          record b {
            spawned =
                connect
                  (edited frame screen).work_thread
                  (edited frame screen).desktop_name
                  addr
                  (edited frame screen).extra_ca
                ∷ b.spawned;
          },
        )
    unfolding after_fields try_parse_signalling_server_addr
    update_starts addr free clicked filled parsed =
        clicked_frame true free clicked
        ∙ ap (λ v. submit v b) (validated_filled (edited frame screen) filled)
        ∙ submit_filled (record (edited frame screen) { error_msg = none }) addr b parsed

    -- When the button of an unlocked form is clicked and what the frame leaves in the fields is
    -- no name or no address, the form gets an error and nothing is started.
    pub update_refuses :
        screen.signalling_connection_init ≡ none
        → frame.button true ≡ true
        → ¬ IsFilled (edited frame screen)
        → (text : String) × (update frame screen b
            ≡ (ok (next (setup (record (edited frame screen) { error_msg = some text })) false), b))
    unfolding after_fields
    update_refuses free clicked empty =
        let (text, e) = validated_empty (edited frame screen) empty in
        (text, clicked_frame true free clicked ∙ ap (λ v. submit v b) e ∙ submit_empty _ b)
