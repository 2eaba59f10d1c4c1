-- ===== src/Backend/Ui/Consistent/Running.antt =====
-- hammer/hammeregg_backend/src/ui/running.rs: what ties the last screen to its tasks and its file.
use hammeregg.Prelude.{
  String, Bool, true, false, ◌∷◌, ◌≡◌, refl, sym, ap, Option, none, some, Result, ok, err, panic,
  Option-cases, subst, with_context, with_context-bind, length, inl, inr,
}
use hammeregg.Prelude.Stateful.{pure}
use hammeregg.Prelude.Stateful.Triples.{Triple}
use hammeregg.Core.Packet.{Bytes}
use hammeregg.Backend.Offer.Replies.{IsCalm, IsCalm-bind, IsCalm-with_context}
use hammeregg.Backend.Stream.{MonitorBounds}
use hammeregg.Backend.Ui.Platform.{
  Platform, Frame, Poll, waiting, canceled, received, serve, report_panic, Background,
  RemotePassword,
}
use hammeregg.Backend.Ui.Screen.{KeygenScreen, RunningScreen, keygen, running}
use hammeregg.Backend.Ui.Key.{remote_password, save}
use hammeregg.Backend.Ui.Keygen
use hammeregg.Backend.Ui.Running
use hammeregg.Backend.Ui.Running.{
  connected_label, monitor_bounds, logical_bounds, chosen_monitor, start_serving, saved,
  offer_password, updated,
}
use hammeregg.Backend.Ui.Consistent.{
  IsConsistent, NextIsConsistent, IsSound, Encodes, IsIntroduced-later, spawned_at-newest,
  spawned_at-later,
}

module _ ⦃platform : Platform⦄ (Seen : Frame → Type 0) where
  remote_password-ok :
      Encodes
      → (home remote : platform.PrivateKey)
      → (password : RemotePassword) × (remote_password (home, remote) ≡ ok password)
        × (platform.to_public_key_pem (platform.to_public_key home) ≡ ok password.home_public_key)
        × (platform.to_pkcs8_pem remote ≡ ok password.remote_private_key)
  unfolding remote_password
  remote_password-ok encodes home remote =
      let (home_pem, e) = encodes.public_pem (platform.to_public_key home) in
      let (remote_pem, e') = encodes.private_pem remote in
      (
        record { home_public_key = home_pem; remote_private_key = remote_pem },
        rw (remote_password, e, e') refl,
        e,
        e',
      )

  monitor_bounds-ok :
      (frame : Frame)
      → IsSound frame
      → (bounds : MonitorBounds) × (monitor_bounds frame ≡ ok bounds)
  unfolding monitor_bounds
  monitor_bounds-ok frame sound =
      let (monitor, e) = sound.monitor in (logical_bounds monitor, rw (monitor_bounds, e) refl)

  pub take_keys-IsConsistent :
      (frame : Frame) (screen : KeygenScreen)
      (answer : Poll (platform.PrivateKey × platform.PrivateKey))
      → IsSound frame
      → Encodes
      → Triple
          (IsConsistent Seen (keygen screen))
          (Keygen.take_keys frame screen answer)
          (NextIsConsistent Seen)
          (λ b. ⊥)
  unfolding Keygen.take_keys Running.new start_serving
  take_keys-IsConsistent frame screen waiting sound encodes = record { after = λ b h. h }
  take_keys-IsConsistent frame screen canceled sound encodes = record { after = λ b h. h }
  take_keys-IsConsistent frame screen (received (home, remote)) sound encodes =
      let (bounds, e) = monitor_bounds-ok frame sound in
      let (password, e', home_fits, remote_fits) = remote_password-ok encodes home remote in
      record {
        after = λ b (kept, introduced, keys, no_files).
            rw (Running.new, e, e')
              (let serving =
                  serve screen.work_thread screen.wss home (platform.to_public_key remote) bounds in
                let reporter = report_panic screen.work_thread (length b.spawned) in
                let served : Background = record b { spawned = serving ∷ b.spawned } in
                (
                  screen.desktop_name,
                  screen.wss,
                  refl,
                  IsIntroduced-later Seen screen.work_thread screen.desktop_name screen.wss reporter
                      served
                      (IsIntroduced-later Seen screen.work_thread screen.desktop_name screen.wss
                        serving b introduced),
                  (
                    (
                      length b.spawned,
                      home,
                      remote,
                      bounds,
                      spawned_at-later (length b.spawned) served.spawned serving reporter
                          (spawned_at-newest b.spawned serving),
                      home_fits,
                      remote_fits,
                    ),
                    no_files,
                  ),
                ));
      }

  saved-IsConsistent :
      (file : String) (screen : RunningScreen) (password : RemotePassword) (outcome : Result Bytes)
      → screen.password ≡ some password
      → IsCalm outcome
      → ((bson : Bytes) → outcome ≡ ok bson → platform.to_vec password ≡ ok bson)
      → Triple
          (IsConsistent Seen (running screen))
          (saved file screen outcome)
          (λ shown. IsConsistent Seen (running shown))
          (λ b. ⊥)
  unfolding saved
  saved-IsConsistent file screen password (ok bson) there calm encoded = record {
    after = λ b (name, wss, label, introduced, fits).
        let (fits, no_files) = rw there at fits in
        (
          name,
          wss,
          label,
          introduced,
          (
            file,
            bson,
            password,
            fits,
            encoded bson refl,
            ap (λ files. (file, bson) ∷ files) no_files,
          ),
        );
  }
  saved-IsConsistent file screen password (err e) there calm encoded = record { after = λ b h. h }
  saved-IsConsistent file screen password panic there calm encoded = absurd calm

  save-IsCalm :
      (frame : Frame) (file : String) (password : RemotePassword)
      → IsSound frame
      → Encodes
      → IsCalm (save frame file password)
        × ((bson : Bytes) → save frame file password ≡ ok bson → platform.to_vec password ≡ ok bson)
  unfolding save
  save-IsCalm frame file password sound encodes = (
    IsCalm-bind (with_context (platform.to_vec password) "Failed to serialize password") _
        (IsCalm-with_context _ _ (encodes.to_vec password))
        (λ bson e.
          IsCalm-bind (with_context (frame.write file bson) "Failed to write password") _
            (IsCalm-with_context _ _ (sound.write file bson)) (λ written e'. tt)),
    λ bson h.
        let (bson', made, rest) = with_context-bind (platform.to_vec password) _ _ h in
        let (written, done, same) = with_context-bind (frame.write file bson') _ _ rest in cc,
  )

  offer_password-IsConsistent :
      (frame : Frame) (screen : RunningScreen) (password : RemotePassword) (clicked : Bool)
      (file : Option String)
      → screen.password ≡ some password
      → IsSound frame
      → Encodes
      → Triple
          (IsConsistent Seen (running screen))
          (offer_password frame screen password clicked file)
          (λ shown. IsConsistent Seen (running shown))
          (λ b. ⊥)
  unfolding offer_password
  offer_password-IsConsistent frame screen password true (some file) e sound encodes =
      let (calm, encoded) = save-IsCalm frame file password sound encodes in
      saved-IsConsistent file screen password (save frame file password) e calm encoded
  offer_password-IsConsistent frame screen password true none e sound encodes = record {
    after = λ b h. h;
  }
  offer_password-IsConsistent frame screen password false file e sound encodes = record {
    after = λ b h. h;
  }

  updated_saved :
      (frame : Frame) (screen : RunningScreen)
      → screen.password ≡ none
      → updated frame screen ≡ pure screen
  unfolding updated
  updated_saved frame screen e = simp (updated, e)

  updated_password :
      (frame : Frame) (screen : RunningScreen) (password : RemotePassword)
      → screen.password ≡ some password
      → updated frame screen
        ≡ offer_password frame screen password (frame.button true) frame.save_file
  unfolding updated
  updated_password frame screen password e = simp (updated, e)

  pub updated-IsConsistent :
      (frame : Frame) (screen : RunningScreen)
      → IsSound frame
      → Encodes
      → Triple
          (IsConsistent Seen (running screen))
          (updated frame screen)
          (λ shown. IsConsistent Seen (running shown))
          (λ b. ⊥)
  updated-IsConsistent frame screen sound encodes = elim (Option-cases screen.password) [
    | inl e ↦
        subst
          (λ m.
            Triple (IsConsistent Seen (running screen)) m
              (λ shown. IsConsistent Seen (running shown)) (λ b. ⊥))
          (sym (updated_saved frame screen e)) (record { after = λ b h. h })
    | inr (password, e) ↦
        subst
          (λ m.
            Triple (IsConsistent Seen (running screen)) m
              (λ shown. IsConsistent Seen (running shown)) (λ b. ⊥))
          (sym (updated_password frame screen password e))
          (offer_password-IsConsistent frame screen password (frame.button true) frame.save_file e
            sound encodes)
  ]
