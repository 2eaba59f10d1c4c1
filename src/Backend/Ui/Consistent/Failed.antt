-- ===== src/Backend/Ui/Consistent/Failed.antt =====
-- hammer/hammeregg_backend/src/ui/mod.rs: a session without a work thread.
use hammeregg.Prelude.{
  Bool, true, false, ◌||◌, not, inl, inr, Bool-cases, List, [], ◌∷◌, ◌≡◌, refl, none, some, ok,
}
use hammeregg.Backend.Ui.Platform.{Platform, Frame, Background}
use hammeregg.Prelude.Int.{negsuc}
use hammeregg.Backend.Ui.Screen.{work_thread_init_failed}
use hammeregg.Backend.Ui.App.{
  Ui, clear_color, pack, failed_screen, End, drawn, closed, update, update_screen, show_next,
  and_resized, draw,
}

module _ ⦃platform : Platform⦄ where
  -- Whether `Exit` is clicked in one of the frames.
  abbrev pub any_clicked : List Frame → Bool
  any_clicked [] = false
  any_clicked (frame ∷ frames) = frame.button true || any_clicked frames

module _ ⦃platform : Platform⦄ (fill : platform.Rgba) where
  -- The window still shows the failure, in its colour, unless it was left by the button.
  abbrev pub FailedEnd : Bool → End → Type 0
  FailedEnd true end = end ≡ closed (negsuc 0)
  FailedEnd false (drawn ui resized) =
      (ui.current_screen ≡ some work_thread_init_failed) × (clear_color ui ≡ ok fill)
  FailedEnd false (closed code) = ⊥

  failed_update :
      (frame : Frame) (ui : Ui) (b : Background)
      → ui.current_screen ≡ some work_thread_init_failed
      → update frame ui b ≡ (
        ok (show_next (record ui { current_screen = none }) (failed_screen (frame.button true))),
        b,
      )
  unfolding update update_screen
  failed_update frame ui b there = rw (update, there) refl

  abbrev failed_ui : Ui → Ui
  failed_ui ui = record (pack ui) { current_screen = some work_thread_init_failed }

  and_resized-FailedEnd :
      (clicked resized : Bool) (end : End)
      → FailedEnd clicked end
      → FailedEnd clicked (and_resized resized end)
  and_resized-FailedEnd true resized end h = rw h refl
  and_resized-FailedEnd false resized (drawn ui others) h = h
  and_resized-FailedEnd false resized (closed code) h = h

  pub failed_session :
      (frames : List Frame) (ui : Ui) (b : Background)
      → ui.current_screen ≡ some work_thread_init_failed
      → clear_color ui ≡ ok fill
      → (end : End) × (draw frames ui b ≡ (ok end, b)) × FailedEnd (any_clicked frames) end
  unfolding draw show_next failed_screen
  failed_session [] ui b there color = (drawn ui [], refl, (there, color))
  failed_session (frame ∷ frames) ui b there color = elim (Bool-cases (frame.button true)) [
    | inl clicked ↦
        (closed (negsuc 0), rw (failed_update frame ui b there, clicked) refl, rw clicked refl)
    | inr idle ↦
        let (end, e, h) = failed_session frames (failed_ui ui) b refl color in
        (
          and_resized (not ui.packed) end,
          rw (failed_update frame ui b there, idle, e) refl,
          rw idle (and_resized-FailedEnd (any_clicked frames) (not ui.packed) end h),
        )
  ]
