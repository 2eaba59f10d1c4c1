-- ===== src/Backend/Ui/Consistent/Session.antt =====
-- hammer/hammeregg_backend/src/ui/mod.rs: whole sessions of the window.
use hammeregg.Prelude.{
  ℕ, String, Bool, true, false, Error, ap, List, [], ◌∷◌, ◌≡◌, refl, sym, ◌∙◌, arith, ok_inj, none,
  some, Result, ok, err, panic, unwrap, All, subst,
}
use mathlib.Core.List.{Memᴰ}
use hammeregg.Prelude.Stateful.{lift, ◌>>=◌, pure}
use hammeregg.Prelude.Stateful.Triples.{Triple, After, After-ok, Triple-bind}
use hammeregg.Backend.Offer.Replies.{IsCalm}
use hammeregg.Backend.Ui.Platform.{Platform, Frame, Background, Desk}
use hammeregg.Backend.Ui.Screen.{
  work_thread_init_failed, RunningScreen, Screen, Next, next, exit, running,
}
use hammeregg.Backend.Ui.App.{
  Ui, new, set_up, clear_color, Shown, shown, exited, End, drawn, closed, first_screen, update,
  update_screen, show_next, and_resized, go_on, draw, untouched,
}
use hammeregg.Backend.Ui.Consistent.{IsConsistent, NextIsConsistent, IsSound, Encodes, IsRunning}
use hammeregg.Backend.Ui.Consistent.Screens.{update_screen-IsConsistent}
use hammeregg.Backend.Ui.Consistent.Failed.{any_clicked, FailedEnd, failed_session}

module _ ⦃platform : Platform⦄ where
  -- A frame of the session.
  abbrev pub IsFrameOf : List Frame → Frame → Type 0
  IsFrameOf frames frame = Memᴰ frame frames

module _ ⦃platform : Platform⦄ (Seen : Frame → Type 0) (fill : platform.Rgba) where
  -- The window has a screen and a colour, and the screen is tied to its tasks.
  abbrev pub IsDrawable : Ui → Background → Type 0
  IsDrawable ui b =
      (screen : Screen) × (ui.current_screen ≡ some screen)
      × IsConsistent Seen screen b
      × (clear_color ui ≡ ok fill)

  abbrev ShownIsDrawable : Shown → Background → Type 0
  ShownIsDrawable (shown ui resized) b = IsDrawable ui b
  ShownIsDrawable (exited code) b = ⊥

  abbrev pub EndIsDrawable : End → Background → Type 0
  EndIsDrawable (drawn ui resized) b = IsDrawable ui b
  EndIsDrawable (closed code) b = ⊥

  show_next-IsDrawable :
      (ui : Ui) (answer : Next) (b : Background)
      → clear_color ui ≡ ok fill
      → NextIsConsistent Seen answer b
      → ShownIsDrawable (show_next ui answer) b
  unfolding show_next
  show_next-IsDrawable ui (next screen true) b color h = (screen, refl, h, color)
  show_next-IsDrawable ui (next screen false) b color h = (screen, refl, h, color)
  show_next-IsDrawable ui (exit code) b color h = h

  update-IsDrawable :
      (frame : Frame) (ui : Ui)
      → Seen frame
      → IsSound frame
      → Encodes
      → Triple (IsDrawable ui) (update frame ui) ShownIsDrawable (λ b. ⊥)
  unfolding update
  update-IsDrawable frame ui seen sound encodes = record {
    after = λ b (screen, there, h, color).
        subst
          (λ r.
            After ShownIsDrawable (λ b. ⊥)
              ((lift (unwrap r) >>= λ s. update_screen frame s >>= λ answer.
                  pure (show_next (record ui { current_screen = none }) answer))
                b))
          (sym there)
          ((Triple-bind (update_screen frame screen) _
              (update_screen-IsConsistent Seen frame screen seen sound encodes)
              λ answer. record {
                after = λ b' h'.
                    show_next-IsDrawable (record ui { current_screen = none }) answer b' color h';
              }).after
            b h);
  }

  and_resized-IsDrawable :
      (resized : Bool) (end : End) (b : Background)
      → EndIsDrawable end b
      → EndIsDrawable (and_resized resized end) b
  and_resized-IsDrawable resized (drawn ui others) b h = h
  and_resized-IsDrawable resized (closed code) b h = h

  go_on-IsDrawable :
      (rest : Ui → Desk End)
      → ((ui : Ui) → Triple (IsDrawable ui) (rest ui) EndIsDrawable (λ b. ⊥))
      → (answer : Shown)
      → Triple (ShownIsDrawable answer) (go_on rest answer) EndIsDrawable (λ b. ⊥)
  go_on-IsDrawable rest kept (shown ui resized) =
      Triple-bind (rest ui) _ (kept ui) λ end. record { after = and_resized-IsDrawable resized end }
  go_on-IsDrawable rest kept (exited code) = record { after = λ b h. h }

  draw-IsDrawable :
      (frames : List Frame) (ui : Ui)
      → All Seen frames
      → All IsSound frames
      → Encodes
      → Triple (IsDrawable ui) (draw frames ui) EndIsDrawable (λ b. ⊥)
  unfolding draw
  draw-IsDrawable [] ui seen sound encodes = record { after = λ b h. h }
  draw-IsDrawable (frame ∷ frames) ui (this, seen) (first, sound) encodes =
      Triple-bind (update frame ui) (go_on (draw frames))
        (update-IsDrawable frame ui this first encodes)
        (go_on-IsDrawable (draw frames)
          λ next_ui. draw-IsDrawable frames next_ui seen sound encodes)

  first_screen-IsConsistent :
      (work_thread : ℕ) (name : String)
      → (screen : Screen) × (first_screen (ok work_thread) (some name) ≡ ok screen)
        × IsConsistent Seen screen untouched
  unfolding first_screen
  first_screen-IsConsistent work_thread name = (_, refl, (tt, tt, refl))

  first_screen-failed :
      (e : Error) (name : String) → first_screen (err e) (some name) ≡ ok work_thread_init_failed
  unfolding first_screen
  first_screen-failed e name = refl

  -- Where a session has come to, by what `WorkThread::new` returned: with a work thread, the window
  -- has a screen that is tied to its tasks, and a colour, and the process goes on; without one,
  -- nothing was started, and the process goes on until the first click of `Exit`, whose code is -1.
  abbrev pub SessionEnd : Result ℕ → List Frame → End → Background → Type 0
  SessionEnd (ok work_thread) frames end b = EndIsDrawable end b
  SessionEnd (err e) frames end b = (b ≡ untouched) × FailedEnd fill (any_clicked frames) end
  SessionEnd panic frames end b = ⊥

some_inj : {A : Type 0} {a b : A} → some a ≡ some b → a ≡ b
some_inj h = ground arith

All-map :
    {A : Type 0} {P Q : A → Type 0} (xs : List A) → ((x : A) → P x → Q x) → All P xs → All Q xs
All-map [] f h = tt
All-map (x ∷ xs) f (h, rest) = (f x h, All-map xs f rest)

All-Memᴰ : {A : Type 0} (xs : List A) → All (λ x. Memᴰ x xs) xs
All-Memᴰ [] = tt
All-Memᴰ (x ∷ xs) = (Memᴰ.head refl, All-map xs (λ y. Memᴰ.tail) (All-Memᴰ xs))

module _ ⦃platform : Platform⦄ (fill : platform.Rgba) (name : String) (frames : List Frame) where
  -- No session of the window panics, whatever is typed, clicked and answered. With a work
  -- thread, after every number of frames the window has a screen and its colour, the screen is
  -- tied to the tasks that were started for it, and the process goes on. Without one, nothing
  -- is started and the failure is shown until the first frame in which its button is clicked,
  -- and then the process exits with -1. This holds if the work thread did not panic, keys and
  -- passwords can be encoded, a monitor is there, disabled fields keep their texts, and the
  -- generator of names answers one.
  pub session_returns :
      (built : Result ℕ)
      → IsCalm built
      → All IsSound frames
      → Encodes
      → (screen : Screen) × (end : End) × (b : Background) × (first_screen built (some name)
          ≡ ok screen)
        × (draw frames (set_up fill (new screen)) untouched ≡ (ok end, b))
        × SessionEnd (IsFrameOf frames) fill built frames end b
  session_returns (ok work_thread) calm sound encodes =
      let (screen, begun, h) = first_screen-IsConsistent (IsFrameOf frames) fill work_thread name in
      let (end, b, e, drawable) = After-ok _ (
        (draw-IsDrawable (IsFrameOf frames) fill frames (set_up fill (new screen)) (All-Memᴰ frames)
            sound encodes).after
          untouched (screen, refl, h, refl)) in
      (screen, end, b, begun, e, drawable)
  session_returns (err e) calm sound encodes =
      let (end, drawn_to, h) =
        failed_session fill frames (set_up fill (new work_thread_init_failed)) untouched refl
          refl in
      (
        work_thread_init_failed,
        end,
        untouched,
        first_screen-failed (IsFrameOf frames) fill e name,
        drawn_to,
        (refl, h),
      )
  session_returns panic calm sound encodes = absurd calm

  running-FailedEnd :
      (clicked : Bool) (ui : Ui) (resized : List Bool) (s : RunningScreen)
      → ui.current_screen ≡ some (running s)
      → ¬ FailedEnd fill clicked (drawn ui resized)
  running-FailedEnd true ui resized s there h = cc
  running-FailedEnd false ui resized s there (failed, color) = cc

  -- In every session of the window, whatever is typed, clicked and answered, that comes to the
  -- last screen: a task of this session was started to introduce a desktop to a server, under
  -- the name that the label shows, which is not empty and holds no NUL, and came back with a
  -- connection, as a frame of the session has seen; over that connection a task answers offers
  -- with the private half of one pair of keys and the public half of another; the password that
  -- is offered is the encoding of the other halves of these pairs, and nothing was written; or
  -- it was saved, and then one file was written, with the encoding of such a password; if the
  -- work thread did not panic, keys and passwords can be encoded, a monitor is there, disabled
  -- fields keep their texts, and the generator of names answers one.
  pub session_password_fits :
      (built : Result ℕ) (screen : Screen) (ui : Ui) (resized : List Bool) (s : RunningScreen)
      (b : Background)
      → IsCalm built
      → All IsSound frames
      → Encodes
      → first_screen built (some name) ≡ ok screen
      → draw frames (set_up fill (new screen)) untouched ≡ (ok (drawn ui resized), b)
      → ui.current_screen ≡ some (running s)
      → IsRunning (IsFrameOf frames) s b
  session_password_fits built screen ui resized s b calm sound encodes begun e there =
      let (screen', end, b', begun', e', h) = session_returns built calm sound encodes in
      let same : drawn_at screen' ≡ drawn_at screen = ap drawn_at (ok_inj (sym begun' ∙ begun)) in
      let all : (ok end, b') ≡ (ok (drawn ui resized), b) = sym e' ∙ (same ∙ e) in
      go built (
        subst (λ x. SessionEnd (IsFrameOf frames) fill built frames x b)
          (ok_inj (ap (λ x. x.0) all))
          (subst (SessionEnd (IsFrameOf frames) fill built frames end) (ap (λ x. x.1) all) h))
    where
      drawn_at : Screen → Result End × Background
      drawn_at first = draw frames (set_up fill (new first)) untouched

      go :
          (built : Result ℕ)
          → SessionEnd (IsFrameOf frames) fill built frames (drawn ui resized) b
          → IsRunning (IsFrameOf frames) s b
      go (ok work_thread) (shown_screen, there', tied, color) =
          subst (λ x. IsConsistent (IsFrameOf frames) x b) (some_inj (sym there' ∙ there)) tied
      go (err e) (same, failed) =
          absurd (running-FailedEnd (any_clicked frames) ui resized s there failed)
      go panic h = absurd h
