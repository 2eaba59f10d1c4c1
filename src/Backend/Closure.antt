-- ===== src/Backend/Closure.antt =====
-- hammer/hammeregg_backend/src/pion.rs, `make_c_closure` with `__make_c_closure_rest`: a closure as a
-- function of C and a pointer, over the places of the stack. A place that was moved from, or whose
-- scope has ended, is no place any longer.
pub mod Dangling
use hammeregg.Prelude.{ℕ, ◌+◌, List, [], ◌∷◌, Option, none, some, nat_keys}
use hammeregg.Prelude.HashMap
use hammeregg.Prelude.HashMap.{HashMap}

-- What a place holds: a closure, or the reference to one, which is a `dyn FnMut`.
pub data Cell (A B : Type 0) : Type 0 where
  body : (A → B) → Cell A B
  reference : ℕ → Cell A B

-- The places that are there, and the next one.
pub record Stack (A B : Type 0) : Type 0 where
  pub cells : HashMap ℕ (Cell A B)
  pub next : ℕ

module _ {A B : Type 0} where
  -- `let`, or a temporary
  abbrev pub place : Cell A B → Stack A B → ℕ × Stack A B
  place c s = (s.next, record { cells = HashMap.insert s.next c s.cells; next = s.next + 1 })

  abbrev pub end_place : ℕ → Stack A B → Stack A B
  end_place p s = record s { cells = HashMap.remove p s.cells }

  -- What is at a place goes to a new one.
  abbrev pub move_cell : Option (Cell A B) → ℕ → Stack A B → ℕ × Stack A B
  move_cell (some c) p s = place c (end_place p s)
  move_cell none p s = (p, s)

  abbrev pub move_out : ℕ → Stack A B → ℕ × Stack A B
  move_out p s = move_cell (HashMap.get p s.cells) p s

  -- `__make_c_closure_rest`: the pointer to a reference to the closure, which lives to the end of the
  -- block.
  unfoldable pub closure_data : ℕ → Stack A B → ℕ × Stack A B
  closure_data closure s = place (reference closure) s

  -- `make_c_closure`: the closure, moved out of the block, and the pointer.
  unfoldable pub make_c_closure : (A → B) → Stack A B → (ℕ × ℕ) × Stack A B
  unfolding closure_data
  make_c_closure f s =
      let (closure, s1) = place (body f) s in
      let (user_data, s2) = closure_data closure s1 in
      let (moved, s3) = move_out closure s2 in ((moved, user_data), end_place user_data s3)

  -- The call of a closure at a place. `none` is undefined behaviour.
  abbrev pub call : Option (Cell A B) → A → Option B
  call (some (body f)) a = some (f a)
  call (some (reference p)) a = none
  call none a = none

  abbrev pub call_through : HashMap ℕ (Cell A B) → Option (Cell A B) → A → Option B
  call_through cells (some (reference p)) a = call (HashMap.get p cells) a
  call_through cells (some (body f)) a = none
  call_through cells none a = none

  -- The function that C calls, with the argument and the pointer.
  unfoldable pub callback : A → ℕ → Stack A B → Option B
  callback a user_data s = call_through s.cells (HashMap.get user_data s.cells) a

  -- What the caller puts on the stack later.
  abbrev pub place_all : List (Cell A B) → Stack A B → Stack A B
  place_all [] s = s
  place_all (c ∷ cs) s = place_all cs (place c s).1
