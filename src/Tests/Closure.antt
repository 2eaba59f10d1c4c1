-- ===== src/Tests/Closure.antt =====
-- hammer/hammeregg_backend/src/pion.rs at work: a closure that doubles its argument.
use hammeregg.Prelude.{ℕ, ◌*◌, ◌∷◌, [], ◌≡◌, some, none, nat_keys}
use hammeregg.Prelude.HashMap
use hammeregg.Backend.Closure.{Stack, body, make_c_closure, callback, place_all}
use hammeregg.Backend.Closure.Dangling.{in_block, callback_dangles}

abbrev double : ℕ → ℕ
double n = n * 2

abbrev empty_stack : Stack ℕ ℕ
empty_stack = record { cells = []; next = 0 }

callback_dangles_example :
    (callback 21 (in_block double empty_stack).0 (in_block double empty_stack).1 ≡ some 42)
    × (HashMap.get
          (make_c_closure double empty_stack).0.0
          (make_c_closure double empty_stack).1.cells
        ≡ some (body double))
    × (callback 21
          (make_c_closure double empty_stack).0.1
          (place_all (body double ∷ []) (make_c_closure double empty_stack).1)
        ≡ none)
callback_dangles_example = callback_dangles double empty_stack 21 (body double ∷ [])
