-- ===== src/Backend/WorkThread/Waking.antt =====
-- hammer/hammeregg_backend/src/work.rs: whether the parent of a work thread wakes up.
use hammeregg.Prelude.{
  ℕ, List, some, [], ◌∷◌, ◌++◌, Bool, message, ◌≡◌, refl, arith, true, false, Result, ok, err,
  Error,
}
use hammeregg.Backend.WorkThread.{
  building, blocking, panicked, Slot, empty, handle, dropped, Parent, looking, parking, returned,
  Threads, spawned, builder_step, parent_step, Turn, builder_turn, parent_turn, answer, take_turn,
  run_threads, spurious_turn, wake_spuriously,
}

-- The channel shows what the new thread did, the parent has returned only with what the channel
-- shows, and it is not parked without a token once the new thread has woken it, and has no
-- token before.
pub record IsWellWoken (t : Threads) : Type 0 where
  pub unsent : t.slot ≡ empty → t.builder ≡ building
  pub unbuilt : t.builder ≡ building → t.slot ≡ empty
  pub lost : t.slot ≡ dropped → t.builder ≡ panicked
  pub answered : (r : Result ℕ) → t.parent ≡ returned r → answer t.slot ≡ some r
  pub woken : t.builder ≡ blocking → t.parent ≡ parking → t.token ≡ true
  pub unwoken : t.builder ≡ building → t.token ≡ false

builder_step-IsWellWoken :
    (built : Result ℕ) (t : Threads) → IsWellWoken t → IsWellWoken (builder_step built t)
unfolding builder_step
builder_step-IsWellWoken built t h = record {
  unsent = ground (arith, h.unsent);
  unbuilt = ground (arith, h.unbuilt);
  lost = ground (arith, h.lost);
  answered = λ r. ground (arith, h.answered r, h.unbuilt);
  woken = ground (arith, h.woken);
  unwoken = ground (arith, h.unwoken);
}

parent_step-IsWellWoken : (t : Threads) → IsWellWoken t → IsWellWoken (parent_step t)
unfolding parent_step
parent_step-IsWellWoken t h = record {
  unsent = ground (arith, h.unsent);
  unbuilt = ground (arith, h.unbuilt);
  lost = ground (arith, h.lost);
  answered = λ r. ground (arith, h.answered r);
  woken = ground (arith, h.woken, h.unsent);
  unwoken = ground (arith, h.unwoken);
}

wake_spuriously-IsWellWoken : (t : Threads) → IsWellWoken t → IsWellWoken (wake_spuriously t)
unfolding wake_spuriously
wake_spuriously-IsWellWoken t h = record {
  unsent = ground (arith, h.unsent);
  unbuilt = ground (arith, h.unbuilt);
  lost = ground (arith, h.lost);
  answered = λ r. ground (arith, h.answered r);
  woken = ground (arith, h.woken);
  unwoken = ground (arith, h.unwoken);
}

run_threads-IsWellWoken :
    (schedule : List Turn) (t : Threads) → IsWellWoken t → IsWellWoken (run_threads schedule t)
unfolding run_threads take_turn
run_threads-IsWellWoken [] t h = h
run_threads-IsWellWoken (builder_turn built ∷ rest) t h =
    run_threads-IsWellWoken rest (builder_step built t) (builder_step-IsWellWoken built t h)
run_threads-IsWellWoken (parent_turn ∷ rest) t h =
    run_threads-IsWellWoken rest (parent_step t) (parent_step-IsWellWoken t h)
run_threads-IsWellWoken (spurious_turn ∷ rest) t h =
    run_threads-IsWellWoken rest (wake_spuriously t) (wake_spuriously-IsWellWoken t h)

spawned-IsWellWoken : IsWellWoken spawned
spawned-IsWellWoken = record {
  unsent = λ e. refl;
  unbuilt = λ e. refl;
  lost = ground arith;
  answered = λ r. ground arith;
  woken = ground arith;
  unwoken = λ e. refl;
}

sent_slot : (t : Threads) → IsWellWoken t → t.builder ≡ blocking → (h : ℕ) × (t.slot ≡ handle h)
sent_slot t w e = go t.slot refl
  where
    go : (o : Slot) → t.slot ≡ o → (h : ℕ) × (t.slot ≡ handle h)
    go empty seen = absurd (ground (arith, w.unsent))
    go (handle h) seen = (h, seen)
    go dropped seen = absurd (ground (arith, w.lost))

abbrev pub two_turns : Threads → Threads
two_turns t = parent_step (parent_step t)

two_turns-returns :
    (t : Threads)
    → IsWellWoken t
    → t.builder ≡ blocking
    → (h : ℕ) × (t.slot ≡ handle h) × ((two_turns t).parent ≡ returned (ok h))
unfolding parent_step
two_turns-returns t w e = let (h, seen) = sent_slot t w e in (h, seen, turns h seen t.parent refl)
  where
    turns :
        (h : ℕ)
        → t.slot ≡ handle h
        → (p : Parent) → t.parent ≡ p
        → (two_turns t).parent ≡ returned (ok h)
    turns h seen looking at = ground arith
    turns h seen parking at = ground (arith, w.woken)
    turns h seen (returned r) at = ground (arith, w.answered r)

-- However the new thread and its parent have run, also when park returned for no reason: once
-- the new thread has woken its parent, two more turns of the parent are enough for it to return
-- with the handle that was sent.
pub parent_wakes :
    (schedule : List Turn)
    → (run_threads schedule spawned).builder ≡ blocking
    → (h : ℕ) × ((run_threads schedule spawned).slot ≡ handle h)
      × ((two_turns (run_threads schedule spawned)).parent ≡ returned (ok h))
parent_wakes schedule =
    two_turns-returns (run_threads schedule spawned)
      (run_threads-IsWellWoken schedule spawned spawned-IsWellWoken)

-- `park` returns only for a token in these turns.
abbrev pub is_quiet : List Turn → Bool
is_quiet [] = true
is_quiet (spurious_turn ∷ turns) = false
is_quiet (builder_turn built ∷ turns) = is_quiet turns
is_quiet (parent_turn ∷ turns) = is_quiet turns

-- The new thread has panicked, and the parent is parked without a token.
record IsHanging (t : Threads) : Type 0 where
  gone : t.builder ≡ panicked
  lost : t.slot ≡ dropped
  untold : t.token ≡ false
  parked : t.parent ≡ parking

IsHanging-run_threads :
    (turns : List Turn) (t : Threads)
    → is_quiet turns ≡ true
    → IsHanging t
    → IsHanging (run_threads turns t)
unfolding run_threads take_turn builder_step parent_step
IsHanging-run_threads [] t quiet h = h
IsHanging-run_threads (spurious_turn ∷ turns) t quiet h = cc
IsHanging-run_threads (builder_turn built ∷ turns) t quiet h =
    IsHanging-run_threads turns (builder_step built t) quiet (record {
      gone = ground (arith, h.gone);
      lost = ground (arith, h.gone, h.lost);
      untold = ground (arith, h.gone, h.untold);
      parked = ground (arith, h.gone, h.parked);
    })
IsHanging-run_threads (parent_turn ∷ turns) t quiet h =
    IsHanging-run_threads turns (parent_step t) quiet (record {
      gone = ground (arith, h.gone, h.parked, h.untold);
      lost = ground (arith, h.parked, h.untold, h.lost);
      untold = ground (arith, h.parked, h.untold);
      parked = ground (arith, h.parked, h.untold);
    })

IsHanging-builder_step :
    (e : Error) (t : Threads)
    → IsWellWoken t
    → t.builder ≡ building
    → t.parent ≡ parking
    → IsHanging (builder_step (err e) t)
unfolding builder_step
IsHanging-builder_step e t w still parked = record {
  gone = ground arith;
  lost = ground arith;
  untold = ground (arith, w.unwoken);
  parked = ground arith;
}

hanging_wakes :
    (t : Threads)
    → IsHanging t
    → (take_turn parent_turn (take_turn spurious_turn t)).parent
      ≡ returned (err (message "Work thread panicked!"))
unfolding take_turn parent_step wake_spuriously
hanging_wakes t h = ground (arith, h.parked, h.lost)

run_threads-append :
    (a b : List Turn) (t : Threads) → run_threads (a ++ b) t ≡ run_threads b (run_threads a t)
unfolding run_threads
run_threads-append [] b t = refl
run_threads-append (turn ∷ a) b t = run_threads-append a b (take_turn turn t)

-- While the runtime is being built, a turn of the parent leaves it parked.
parent_parks :
    (t : Threads)
    → IsWellWoken t
    → t.builder ≡ building
    → ((parent_step t).parent ≡ parking) × ((parent_step t).builder ≡ building)
unfolding parent_step
parent_parks t w still = parks t.parent refl
  where
    parks :
        (p : Parent)
        → t.parent ≡ p
        → ((parent_step t).parent ≡ parking) × ((parent_step t).builder ≡ building)
    parks looking at = ground (arith, w.unbuilt)
    parks parking at = ground (arith, w.unwoken)
    parks (returned r) at = absurd (ground (arith, w.unbuilt, w.answered r))

-- When the parent has taken a turn before the build of the runtime fails, it is parked after
-- that, however the two threads run on, as long as park returns only for a token; and the first
-- time that park returns for no reason, the parent returns the error that the work thread has
-- panicked.
pub failed_build_hangs :
    (before after : List Turn) (e : Error)
    → (run_threads before spawned).builder ≡ building
    → is_quiet after ≡ true
    → ((run_threads (before ++ parent_turn ∷ builder_turn (err e) ∷ after) spawned).parent
        ≡ parking)
      × ((run_threads
            (spurious_turn ∷ parent_turn ∷ [])
            (run_threads (before ++ parent_turn ∷ builder_turn (err e) ∷ after) spawned)).parent
          ≡ returned (err (message "Work thread panicked!")))
unfolding run_threads take_turn
failed_build_hangs before after e still quiet =
    let t = run_threads before spawned in
    let w = run_threads-IsWellWoken before spawned spawned-IsWellWoken in
    let (parked, building_still) = parent_parks t w still in
    let h = IsHanging-run_threads after (builder_step (err e) (parent_step t)) quiet (
      IsHanging-builder_step e (parent_step t) (parent_step-IsWellWoken t w) building_still
        parked) in
    rw (run_threads-append before (parent_turn ∷ builder_turn (err e) ∷ after) spawned)
      (h.parked, hanging_wakes _ h)
