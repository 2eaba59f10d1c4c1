-- ===== src/Backend/Ui/Consistent/Pending.antt =====
-- hammer/hammeregg_backend/src/ui/setup.rs: a frame of the form while a task connects, and
-- hammer/hammeregg_backend/src/ui/keygen.rs, the way to the last screen.
use hammeregg.Prelude.{
  ℕ, String, str_append, true, false, ◌∷◌, ◌≡◌, ap, ◌∙◌, none, some, Error, ◌⊎◌, inl, inr, ok,
  length,
}
use hammeregg.Prelude.Stateful.{lift, ◌>>=◌}
use hammeregg.Backend.Ui.Platform.{
  Platform, Frame, Poll, waiting, canceled, received, generate_keys, Background,
}
use hammeregg.Backend.Ui.Screen.{SetupScreen, Next, next, setup, keygen}
use hammeregg.Backend.Ui.Setup.{
  take_connection, connected, new_keygen, after_fields, update, edit, is_none,
}
use hammeregg.Backend.Ui.Consistent.{IsKept, IsSound}
use hammeregg.Backend.Ui.Consistent.Setup.{edit_locked, check_signalling_connection-pending}

module _ ⦃platform : Platform⦄ (frame : Frame) (screen : SetupScreen) (b : Background)
    (rx : ℕ) where
  pending_frame :
      (answer : Poll (Error ⊎ platform.Wss))
      → IsSound frame
      → IsKept screen.extra_ca
      → screen.signalling_connection_init ≡ some rx
      → frame.connection rx ≡ answer
      → update frame screen b ≡ (lift (take_connection screen answer) >>= connected) b
  unfolding update after_fields
  pending_frame answer sound kept pending e =
      ap
        (λ enabled. after_fields frame enabled (frame.button enabled) (edit frame enabled screen) b)
        (ap is_none pending)
      ∙ ap (λ s. after_fields frame false (frame.button false) s b)
          (edit_locked frame screen sound kept)
      ∙ ap (λ checked. (lift checked >>= connected) b)
          (check_signalling_connection-pending frame screen rx pending
            ∙ ap (take_connection screen) e)

  -- The form as it was, unlocked, with a message.
  abbrev pub unlocked : String → Next
  unlocked text =
      next (setup (record screen { error_msg = some text; signalling_connection_init = none }))
        false

  -- What the answer of the task makes of the window: it waits, unlocks the form with a message, or
  -- begins to generate keys.
  abbrev pub window_after : Poll (Error ⊎ platform.Wss) → Next × Background
  window_after waiting = (next (setup screen) false, b)
  window_after canceled = (unlocked "Error: Signalling thread panicked", b)
  window_after (received (inl e)) = (unlocked (str_append "Error: " (platform.display e)), b)
  window_after (received (inr wss)) = (
    next
        (keygen (record {
          work_thread = screen.work_thread;
          desktop_name = screen.desktop_name;
          signalling_server_addr = screen.signalling_server_addr;
          extra_ca = screen.extra_ca;
          wss = wss;
          error_msg = none;
          password_rx = length b.spawned;
        }))
        true,
    record b { spawned = generate_keys ∷ b.spawned },
  )

  -- A form that waits for its task, in a frame in which disabled fields keep their texts: it
  -- stays as it is while there is no answer, it is unlocked with a message and otherwise
  -- unchanged when the task panicked or failed, and it gives way to the generation of keys, with
  -- all its fields, when there is a connection.
  pub update_pending :
      (answer : Poll (Error ⊎ platform.Wss))
      → IsSound frame
      → IsKept screen.extra_ca
      → screen.signalling_connection_init ≡ some rx
      → frame.connection rx ≡ answer
      → update frame screen b ≡ (ok (window_after answer).0, (window_after answer).1)
  unfolding connected new_keygen
  update_pending waiting sound kept pending e = pending_frame waiting sound kept pending e
  update_pending canceled sound kept pending e = pending_frame canceled sound kept pending e
  update_pending (received (inl x)) sound kept pending e =
      pending_frame (received (inl x)) sound kept pending e
  update_pending (received (inr wss)) sound kept pending e =
      pending_frame (received (inr wss)) sound kept pending e
