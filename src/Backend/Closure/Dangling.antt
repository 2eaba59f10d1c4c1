-- ===== src/Backend/Closure/Dangling.antt =====
-- hammer/hammeregg_backend/src/pion.rs: how long the pointer of a closure is good.
use hammeregg.Prelude.{ℕ, ◌+◌, ◌<◌, List, [], ◌∷◌, ◌≡◌, refl, arith, none, some, nat_keys}
use hammeregg.Prelude.HashMap
use hammeregg.Prelude.HashMap.{HashMap, get-insert, get-remove}
use hammeregg.Backend.Closure.{
  Cell, body, reference, Stack, place, closure_data, make_c_closure, callback, place_all,
}

module _ {A B : Type 0} where
  get-place_all :
      (p : ℕ) (cs : List (Cell A B)) (s : Stack A B)
      → p < s.next
      → HashMap.get p s.cells ≡ none
      → HashMap.get p (place_all cs s).cells ≡ none
  get-place_all p [] s below gone = gone
  get-place_all p (c ∷ cs) s below gone =
      get-place_all p cs (place c s).1 (omega (arith, below))
        (ground (arith, get-insert s.next p c s.cells, gone))

  module _ (f : A → B) (s : Stack A B) where
    -- The block before it moves the closure out.
    abbrev pub in_block : ℕ × Stack A B
    in_block = let (closure, s1) = place (body f) s in closure_data closure s1

    found_in_block : (a : A) → callback a in_block.0 in_block.1 ≡ some (f a)
    unfolding callback closure_data
    found_in_block a = ground (
      arith,
      get-insert (s.next + 1) (s.next + 1) (reference s.next)
          (HashMap.insert s.next (body f) s.cells),
      get-insert (s.next + 1) s.next (reference s.next) (HashMap.insert s.next (body f) s.cells),
      get-insert s.next s.next (body f) s.cells,
    )

    abbrev cells_in_block : HashMap ℕ (Cell A B)
    cells_in_block =
        HashMap.insert (s.next + 1) (reference s.next) (HashMap.insert s.next (body f) s.cells)

    body_in_block : HashMap.get s.next cells_in_block ≡ some (body f)
    body_in_block = ground (
      arith,
      get-insert (s.next + 1) s.next (reference s.next) (HashMap.insert s.next (body f) s.cells),
      get-insert s.next s.next (body f) s.cells,
    )

    cells_after : HashMap ℕ (Cell A B)
    cells_after = HashMap.insert (s.next + 1 + 1) (body f) (HashMap.remove s.next cells_in_block)

    after_block : make_c_closure f s ≡ (
      (s.next + 1 + 1, s.next + 1),
      record { cells = HashMap.remove (s.next + 1) cells_after; next = s.next + 1 + 1 + 1 },
    )
    unfolding make_c_closure closure_data cells_after
    after_block = rw (make_c_closure, closure_data, body_in_block) refl

    gone_after : HashMap.get (s.next + 1) (HashMap.remove (s.next + 1) cells_after) ≡ none
    gone_after = ground (arith, get-remove (s.next + 1) (s.next + 1) cells_after)

    moved_after :
        HashMap.get (s.next + 1 + 1) (HashMap.remove (s.next + 1) cells_after) ≡ some (body f)
    unfolding cells_after
    moved_after = ground (
      arith,
      get-remove (s.next + 1) (s.next + 1 + 1) cells_after,
      get-insert (s.next + 1 + 1) (s.next + 1 + 1) (body f) (HashMap.remove s.next cells_in_block),
    )

    -- In the block of make_c_closure the C function calls the closure through the pointer; after
    -- the block the closure is at a place of the caller, but the C function with the pointer
    -- reads a place that is none any longer, whatever is put on the stack later, so that its
    -- call is undefined.
    pub callback_dangles :
        (a : A) (later : List (Cell A B))
        → (callback a in_block.0 in_block.1 ≡ some (f a))
          × (HashMap.get (make_c_closure f s).0.0 (make_c_closure f s).1.cells ≡ some (body f))
          × (callback a (make_c_closure f s).0.1 (place_all later (make_c_closure f s).1) ≡ none)
    unfolding callback
    callback_dangles a later = (
      found_in_block a,
      rw after_block moved_after,
      rw
          (
            after_block,
            get-place_all (s.next + 1) later
                (record {
                  cells = HashMap.remove (s.next + 1) cells_after;
                  next = s.next + 1 + 1 + 1;
                })
                (omega arith) gone_after,
          )
          refl,
    )
