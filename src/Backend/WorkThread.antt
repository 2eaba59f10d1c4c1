-- ===== src/Backend/WorkThread.antt =====
-- hammer/hammeregg_backend/src/work.rs: `WorkThread::new`, whose thread and parent run side by side.
-- `park` returns when there is a token, and may also return for no reason.
pub mod Waking
use hammeregg.Prelude.{
  ℕ, List, [], ◌∷◌, Bool, true, false, Result, ok, err, panic, message, Option, none, some,
}

-- Where the new thread is: it builds its runtime, has sent the handle, has woken its parent, or has
-- panicked.
pub data Builder : Type 0 where
  building sent blocking panicked : Builder

-- What the parent's end of the one-shot channel shows: nothing yet, the handle, or that the sender
-- was dropped.
pub data Slot : Type 0 where
  empty : Slot
  handle : ℕ → Slot
  dropped : Slot

-- Where the parent is: about to look at the channel, parked, or returned.
pub data Parent : Type 0 where
  looking parking : Parent
  returned : Result ℕ → Parent

-- The two threads, the channel, and the parent's token, which `unpark` sets and `park` takes.
pub record Threads : Type 0 where
  pub builder : Builder
  pub slot : Slot
  pub token : Bool
  pub parent : Parent

abbrev pub spawned : Threads
spawned = record { builder = building; slot = empty; token = false; parent = looking }

-- A step of the new thread, the first with the outcome of the build, whose error is unwrapped.
unfoldable pub builder_step : Result ℕ → Threads → Threads
builder_step built t = elim t.builder [
  | building ↦ elim built [
    | ok h ↦ record t { builder = sent; slot = handle h }
    | err e ↦ record t { builder = panicked; slot = dropped }
    | panic ↦ record t { builder = panicked; slot = dropped }
  ]
  | sent ↦ record t { builder = blocking; token = true }
  | blocking ↦ t
  | panicked ↦ t
]

-- What `try_recv` makes the parent return.
abbrev pub answer : Slot → Option (Result ℕ)
answer empty = none
answer (handle h) = some (ok h)
answer dropped = some (err (message "Work thread panicked!"))

-- The body of the loop: `try_recv`, and `park` where there is nothing yet.
unfoldable pub parent_step : Threads → Threads
parent_step t = elim t.parent [
  | looking ↦ elim (answer t.slot) [
    | none ↦ record t { parent = parking }
    | some r ↦ record t { parent = returned r }
  ]
  | parking ↦ elim t.token [ true ↦ record t { token = false; parent = looking } | false ↦ t ]
  | returned r ↦ t
]

-- `park` without a token: the loop goes round again.
unfoldable pub wake_spuriously : Threads → Threads
wake_spuriously t = elim t.parent [
  | looking ↦ t
  | parking ↦ record t { parent = looking }
  | returned r ↦ t
]

pub data Turn : Type 0 where
  builder_turn : Result ℕ → Turn
  parent_turn : Turn
  -- `park` returns for no reason, if the parent is parked
  spurious_turn : Turn

unfoldable pub take_turn : Turn → Threads → Threads
unfolding builder_step parent_step wake_spuriously
take_turn (builder_turn built) t = builder_step built t
take_turn parent_turn t = parent_step t
take_turn spurious_turn t = wake_spuriously t

-- The turns in the order in which the threads run.
unfoldable pub run_threads : List Turn → Threads → Threads
unfolding take_turn
run_threads [] t = t
run_threads (turn ∷ rest) t = run_threads rest (take_turn turn t)
