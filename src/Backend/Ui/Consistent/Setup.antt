-- ===== src/Backend/Ui/Consistent/Setup.antt =====
-- hammer/hammeregg_backend/src/ui/setup.rs: an update of the form keeps what ties it to its tasks.
use hammeregg.Prelude.{
  ℕ, String, Bool, true, false, [], ◌≡◌, refl, sym, ap, arith, Option, none, some, Error, ◌⊎◌, inl,
  inr, Option-cases, Bool-cases, subst,
}
use hammeregg.Prelude.Text.{chars, is_blank}
use hammeregg.Prelude.Stateful.{lift, ◌>>=◌}
use hammeregg.Prelude.Stateful.Triples.{Triple, After}
use hammeregg.Backend.Ui.Platform.{
  Platform, Frame, Poll, waiting, canceled, received, connect, generate_keys,
}
use hammeregg.Backend.Ui.Screen.{SetupScreen, setup}
use hammeregg.Backend.Ui.Setup.{
  try_parse_signalling_server_addr, validate_input, kept_ca_field, editable_ca_field, edit, submit,
  start_signalling_connection, check_signalling_connection, take_connection, connected, new_keygen,
  after_fields, update, is_none,
}
use hammeregg.Backend.Ui.Setup.Validation.{IsFilled, validate_input_iff}
use hammeregg.Backend.Ui.Consistent.{
  IsKept, IsConsistent, NextIsConsistent, IsSound, IsIntroduced-later, spawned_at-newest,
}

pub IsKept-kept_ca_field : (text : String) → IsKept (kept_ca_field text)
unfolding kept_ca_field
IsKept-kept_ca_field text = elim (Bool-cases (is_blank (chars text))) [
  | inl e ↦ rw (kept_ca_field, e) tt
  | inr e ↦ rw (kept_ca_field, e) e
]

kept_again :
    (extra_ca : Option String)
    → IsKept extra_ca
    → kept_ca_field (editable_ca_field extra_ca) ≡ extra_ca
unfolding kept_ca_field is_blank
kept_again none h = refl
kept_again (some path) h = ground arith

module _ ⦃platform : Platform⦄ where
  -- A form that cannot be edited stays as it is.
  pub edit_locked :
      (frame : Frame) (screen : SetupScreen)
      → IsSound frame
      → IsKept screen.extra_ca
      → edit frame false screen ≡ screen
  unfolding edit
  edit_locked frame screen sound kept =
      let a = sound.name_field screen.desktop_name in
      let b = sound.server_field screen.signalling_server_addr in
      let c = sound.ca_field (editable_ca_field screen.extra_ca) in
      let d = kept_again screen.extra_ca kept in rw (a, b, c, d) refl

  pub check_signalling_connection-pending :
      (frame : Frame) (screen : SetupScreen) (rx : ℕ)
      → screen.signalling_connection_init ≡ some rx
      → check_signalling_connection frame screen ≡ take_connection screen (frame.connection rx)
  unfolding check_signalling_connection
  check_signalling_connection-pending frame screen rx e = simp (check_signalling_connection, e)

module _ ⦃platform : Platform⦄ (Seen : Frame → Type 0) where
  submit-IsConsistent :
      (valid : Bool) (screen : SetupScreen)
      → (valid ≡ true → IsFilled screen)
      → IsKept screen.extra_ca
      → screen.signalling_connection_init ≡ none
      → Triple (λ b. b.files ≡ []) (submit (valid, screen)) (NextIsConsistent Seen) (λ b. ⊥)
  unfolding submit start_signalling_connection try_parse_signalling_server_addr
  submit-IsConsistent false screen filled kept free = record {
    after = λ b no_files. (kept, rw free tt, no_files);
  }
  submit-IsConsistent true screen filled kept free =
      let (is_name, (addr, parsed)) = filled refl in
      record {
        after = λ b no_files.
            rw (submit, start_signalling_connection, parsed)
              (
                kept,
                (
                  addr,
                  parsed,
                  spawned_at-newest b.spawned
                      (connect screen.work_thread screen.desktop_name addr screen.extra_ca),
                  is_name,
                ),
                no_files,
              );
      }

  connected-IsConsistent :
      (frame : Frame) (screen : SetupScreen) (rx : ℕ) (answer : Poll (Error ⊎ platform.Wss))
      → screen.signalling_connection_init ≡ some rx
      → Seen frame
      → frame.connection rx ≡ answer
      → Triple
          (IsConsistent Seen (setup screen))
          (lift (take_connection screen answer) >>= connected)
          (NextIsConsistent Seen)
          (λ b. ⊥)
  unfolding connected new_keygen
  connected-IsConsistent frame screen rx waiting e seen there = record { after = λ b h. h }
  connected-IsConsistent frame screen rx canceled e seen there = record {
    after = λ b (kept, pending, no_files). (kept, tt, no_files);
  }
  connected-IsConsistent frame screen rx (received (inl x)) e seen there = record {
    after = λ b (kept, pending, no_files). (kept, tt, no_files);
  }
  connected-IsConsistent frame screen rx (received (inr wss)) e seen there = record {
    after = λ b (kept, pending, no_files).
        let (addr, parsed, started, is_name) = rw e at pending in
        (
          kept,
          IsIntroduced-later Seen screen.work_thread screen.desktop_name wss generate_keys b
              (rx, addr, screen.extra_ca, frame, started, is_name, seen, there),
          spawned_at-newest b.spawned generate_keys,
          no_files,
        );
  }

  check-IsConsistent :
      (frame : Frame) (clicked : Bool) (screen : SetupScreen) (rx : ℕ)
      → screen.signalling_connection_init ≡ some rx
      → Seen frame
      → Triple
          (IsConsistent Seen (setup screen))
          (after_fields frame false clicked screen)
          (NextIsConsistent Seen)
          (λ b. ⊥)
  unfolding after_fields
  check-IsConsistent frame clicked screen rx e seen =
      subst
        (λ checked.
          Triple (IsConsistent Seen (setup screen)) (lift checked >>= connected)
            (NextIsConsistent Seen) (λ b. ⊥))
        (sym (check_signalling_connection-pending frame screen rx e))
        (connected-IsConsistent frame screen rx (frame.connection rx) e seen refl)

  -- A form without a task.
  free-IsConsistent :
      (frame : Frame) (clicked : Bool) (screen : SetupScreen)
      → IsKept screen.extra_ca
      → screen.signalling_connection_init ≡ none
      → Triple
          (λ b. b.files ≡ [])
          (after_fields frame true clicked screen)
          (NextIsConsistent Seen)
          (λ b. ⊥)
  unfolding after_fields validate_input try_parse_signalling_server_addr
  free-IsConsistent frame true screen kept free =
      submit-IsConsistent (validate_input screen).0 (validate_input screen).1
        (λ e. (validate_input_iff screen).0.0 e) kept free
  free-IsConsistent frame false screen kept free = record {
    after = λ b no_files. (kept, rw free tt, no_files);
  }

  pub update-IsConsistent :
      (frame : Frame) (screen : SetupScreen)
      → Seen frame
      → IsSound frame
      → Triple
          (IsConsistent Seen (setup screen))
          (update frame screen)
          (NextIsConsistent Seen)
          (λ b. ⊥)
  unfolding update edit
  update-IsConsistent frame screen seen sound =
      elim (Option-cases screen.signalling_connection_init) [
        | inl e ↦ record {
          after = λ b (kept, pending, no_files).
              subst
                (λ enabled.
                  After (NextIsConsistent Seen) (λ b. ⊥)
                    (after_fields frame enabled (frame.button enabled) (edit frame enabled screen)
                      b))
                (sym (ap is_none e))
                ((free-IsConsistent frame (frame.button true) (edit frame true screen)
                    (IsKept-kept_ca_field (frame.ca_field true (editable_ca_field screen.extra_ca)))
                    e).after
                  b no_files);
        }
        | inr (rx, e) ↦ record {
          after = λ b (kept, pending, no_files).
              subst
                (λ enabled.
                  After (NextIsConsistent Seen) (λ b. ⊥)
                    (after_fields frame enabled (frame.button enabled) (edit frame enabled screen)
                      b))
                (sym (ap is_none e))
                (subst
                  (λ s.
                    After (NextIsConsistent Seen) (λ b. ⊥)
                      (after_fields frame false (frame.button false) s b))
                  (sym (edit_locked frame screen sound kept))
                  ((check-IsConsistent frame (frame.button false) screen rx e seen).after b
                    (kept, pending, no_files)));
        }
      ]
