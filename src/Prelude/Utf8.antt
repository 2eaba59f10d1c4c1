-- ===== src/Prelude/Utf8.antt =====
-- Texts as their bytes: which bytes are a `String` of the source, and which are a C string.
use Prim.Native.Nat.{ℕ, zero, suc}
use mathlib.Core.Bool.{Bool, true, false, ◌&&◌, ◌||◌}
use mathlib.Core.List.{List, [], ◌∷◌}
use hammeregg.Prelude.Tests.{if◌then◌else◌, leb, nat_eq}

abbrev within : ℕ → ℕ → ℕ → Bool
within low high b = leb low b && leb b high

-- The first byte of a character admits this second byte: no overlong form, no surrogate, nothing
-- past the last character.
abbrev second : ℕ → ℕ → Bool
second a b =
    if nat_eq a 0xe0
    then within 0xa0 0xbf b
    else if nat_eq a 0xed
    then within 0x80 0x9f b
    else if nat_eq a 0xf0
    then within 0x90 0xbf b
    else if nat_eq a 0xf4
    then within 0x80 0x8f b
    else within 0x80 0xbf b

-- The bytes are well-formed UTF-8. The number is how many more bytes the current character has, the
-- byte before it is the character's first.
abbrev well_formed : ℕ → ℕ → List ℕ → Bool
well_formed zero a [] = true
well_formed (suc n) a [] = false
well_formed (suc n) a (b ∷ bs) = let rest = well_formed n 0x80 bs in second a b && rest
well_formed zero a (b ∷ bs) =
    let one = well_formed 0 b bs in
    let two = well_formed 1 b bs in
    let three = well_formed 2 b bs in
    let four = well_formed 3 b bs in
    if leb b 0x7f
    then one
    else if within 0xc2 0xdf b
    then two
    else if within 0xe0 0xef b
    then three
    else if within 0xf0 0xf4 b
    then four
    else false

unfoldable pub is_utf8 : List ℕ → Bool
is_utf8 bytes = well_formed 0 0 bytes

-- Whether a byte is zero, where a C string ends.
unfoldable pub has_nul : List ℕ → Bool
has_nul [] = false
has_nul (b ∷ bs) = let rest = has_nul bs in nat_eq b 0 || rest
