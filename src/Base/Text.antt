-- ===== src/Base/Text.antt =====
-- Texts that the program walks, as lists of code points.
use Prim.Native.Nat.{ℕ}
use Prim.Native.Char.{code}
use Prim.Native.String.{String}
use mathlib.Core.Bool.{Bool, true, false, ◌&&◌, ◌||◌}
use mathlib.Core.List.{List, [], ◌∷◌}
use functional_tests.Base.Tests.{leb, if◌then◌else◌}
use functional_tests.Base.Equality.{◌==◌, contains, nat_eq}

abbrev pub Text : Type 0
Text = List ℕ

abbrev pub codes : String → Text
codes String.[] = []
codes (String.◌∷◌ c s) = code c ∷ codes s

-- Regular expression classes of Python's `re` over `str`: `\s`, `[A-Z_]` and `[a-zA-Z0-9_.]`.
unfoldable pub is_space : ℕ → Bool
unfolding nat_eq
is_space c =
    leb 9 c && leb c 13
    || leb 28 c && leb c 32
    || leb 0x2000 c && leb c 0x200a
    || contains (0x85 ∷ 0xa0 ∷ 0x1680 ∷ 0x2028 ∷ 0x2029 ∷ 0x202f ∷ 0x205f ∷ 0x3000 ∷ []) c

unfoldable pub is_tag_char : ℕ → Bool
unfolding nat_eq
is_tag_char c = leb b'A' c && leb c b'Z' || c == b'_'

unfoldable pub is_name_char : ℕ → Bool
unfolding is_tag_char
is_name_char c = is_tag_char c || leb b'a' c && leb c b'z' || leb b'0' c && leb c b'9' || c == b'.'

-- `xs.startswith(ys)` is `starts_with xs ys`.
abbrev pub starts_with : Text → Text → Bool
starts_with xs [] = true
starts_with [] (y ∷ ys) = false
starts_with (x ∷ xs) (y ∷ ys) = y == x && starts_with xs ys

-- `needle in text`
unfoldable pub has_substring : Text → Text → Bool
has_substring needle [] = starts_with [] needle
has_substring needle (c ∷ s) = starts_with (c ∷ s) needle || has_substring needle s

-- The longest prefix of characters of a class, and what follows it.
unfoldable pub span : (ℕ → Bool) → Text → Text × Text
span p [] = ([], [])
span p (c ∷ s) = let (run, rest) = span p s in if p c then (c ∷ run, rest) else ([], c ∷ s)

abbrev push : ℕ → List Text → List Text
push c [] = (c ∷ []) ∷ []
push c (t ∷ ts) = (c ∷ t) ∷ ts

-- `text.split(sep)` for a separator of one character.
unfoldable pub split_on : ℕ → Text → List Text
unfolding nat_eq
split_on sep [] = [] ∷ []
split_on sep (c ∷ s) = let rest = split_on sep s in if c == sep then [] ∷ rest else push c rest
