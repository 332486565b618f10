-- ===== src/Prelude/Text.antt =====
-- Texts: the operations of JavaScript strings that the program uses. A text is a sequence of
-- characters, which for the characters of the basic plane are JavaScript's code units.
pub mod Laws
use Prim.Native.Nat.{ℕ, zero, suc, ◌-◌}
use Prim.Native.Char.{Char, code}
use Prim.Native.String
use Prim.Native.String.{String, [], ◌∷◌, count}
use mathlib.Core.Bool.{Bool, ◌||◌}
use mathlib.Core.List.{List}
use text.Mathlib.Text.{◌==◌, starts_with}
use package.masjid_protocol.Prelude.Tests.{if◌then◌else◌, ◌==◌ as nat_eq}

infixr 65 ◌+++◌
abbrev pub ◌+++◌ : String → String → String
s +++ t = String.◌++◌ s t

-- `s.slice(0, n)` and `s.slice(n)`.
unfoldable pub slice_to : ℕ → String → String
slice_to zero s = []
slice_to (suc n) [] = []
slice_to (suc n) (c ∷ s) = c ∷ slice_to n s

unfoldable pub slice_from : ℕ → String → String
slice_from zero s = s
slice_from (suc n) [] = []
slice_from (suc n) (c ∷ s) = slice_from n s

unfoldable pub size : String → ℕ
size [] = 0
size (c ∷ s) = suc (size s)

-- `s.slice(-n)`: the last `n` characters, or the whole text if it is shorter.
unfoldable pub slice_last : ℕ → String → String
unfolding slice_from size
slice_last n s = slice_from (size s - n) s

-- `s.includes(t)`.
unfoldable pub includes : String → String → Bool
includes t [] = t == []
includes t (c ∷ s) = starts_with (c ∷ s) t || includes t s

-- `s.split(c)` at one character.
split_from : Char → String → String → List String
split_from d cur [] = List.◌∷◌ cur List.[]
split_from d cur (c ∷ s) =
    let closed = split_from d "" s in
    let longer = split_from d (String.◌++◌ cur (c ∷ [])) s in
    if nat_eq (code c) (code d) then List.◌∷◌ cur closed else longer

unfoldable pub split : Char → String → List String
unfolding split_from
split d s = split_from d "" s

-- `s.replace(/c/g, "d")` at one character.
unfoldable pub replace_all : Char → Char → String → String
replace_all from to [] = []
replace_all from to (c ∷ s) =
    (if nat_eq (code c) (code from) then to else c) ∷ replace_all from to s

-- `!s` for a text.
abbrev pub is_empty : String → Bool
is_empty s = s == ""
