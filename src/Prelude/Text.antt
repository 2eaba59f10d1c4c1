-- ===== src/Prelude/Text.antt =====
-- Texts as the numbers of their characters, and what `str` can tell of them.
use Prim.Native.Nat.{ℕ}
use Prim.Native.Char.{code}
use Prim.Native.String.{String}
use mathlib.Core.Bool.{Bool, true, false, ◌&&◌, ◌||◌}
use mathlib.Core.List.{List, [], ◌∷◌}
use hammeregg.Prelude.Tests.{leb, nat_eq}

abbrev pub chars : String → List ℕ
chars String.[] = []
chars (String.◌∷◌ c text) = code c ∷ chars text

abbrev pub is_empty : List ℕ → Bool
is_empty [] = true
is_empty (c ∷ cs) = false

-- `char::is_whitespace`
unfoldable pub is_whitespace : ℕ → Bool
is_whitespace c =
    (leb 0x9 c && leb c 0xd)
    || (nat_eq c 0x20
        || (nat_eq c 0x85
            || (nat_eq c 0xa0
                || (nat_eq c 0x1680
                    || ((leb 0x2000 c && leb c 0x200a)
                        || (nat_eq c 0x2028
                            || (nat_eq c 0x2029
                                || (nat_eq c 0x202f || (nat_eq c 0x205f || nat_eq c 0x3000)))))))))

-- `trim().is_empty()`
unfoldable pub is_blank : List ℕ → Bool
unfolding is_whitespace
is_blank [] = true
is_blank (c ∷ cs) = let rest = is_blank cs in is_whitespace c && rest
