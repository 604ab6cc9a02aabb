-- ===== src/Tests/Paths.antt =====
-- A `str.split` at dots, on which paths are walked.
use Prim.Native.String.append
use Prim.Native.Char.{Char, code}
use functional_tests.Base.{
  ℕ, String, ◌<>◌, ◌≡◌, ◌≢◌, ◌∙◌, ap, refl, Bool, Option, none, some, List, [], ◌∷◌, ◌++◌, ◌+◌, ◌*◌,
  ◌-◌, ◌==◌, ◌&&◌, arith, map, leb, string_eq, nat_eq, if◌then◌else◌,
}
use functional_tests.Bson.{Value}
use functional_tests.Assertions.Paths.{Part}
use functional_tests.Tests.Bson.{Atom}

abbrev pub no_order : Value Atom → Value Atom → Option Bool
no_order v w = none

abbrev push : Char → List String → List String
push c [] = String.◌∷◌ c "" ∷ []
push c (n ∷ ns) = String.◌∷◌ c n ∷ ns

abbrev names : String → List String
names String.[] = "" ∷ []
names (String.◌∷◌ c s) = let rest = names s in if code c == b'.' then "" ∷ rest else push c rest

abbrev digits : ℕ → String → Option ℕ
digits n String.[] = some n
digits n (String.◌∷◌ c s) =
    let rest = digits (10 * n + (code c - 48)) s in
    if leb 48 (code c) && leb (code c) 57 then rest else none

abbrev to_part : String → Part
to_part name = record { name = name; index = if name == "" then none else digits 0 name }

abbrev pub parts : String → List Part
parts path = map to_part (names path)

append_cons : (c : Char) (s t : String) → String.◌∷◌ c s <> t ≡ String.◌∷◌ c (s <> t)
append_cons c s t = λ i. append.cons c s t i

append_nil : (t : String) → "" <> t ≡ t
append_nil t = λ i. append.nil t i

dot_first : (q : String) → names ("." <> q) ≡ "" ∷ names q
unfolding nat_eq
dot_first q = ap names (append_cons "." "" q) ∙ ap (λ s. "" ∷ names s) (append_nil q)

names-ne : (s : String) → names s ≢ []
names-ne String.[] = λ h. cc
names-ne (String.◌∷◌ c s) = ground arith

push-append : (c : Char) (ns ms : List String) → ns ≢ [] → push c (ns ++ ms) ≡ push c ns ++ ms
push-append c [] ms h = absurd (h refl)
push-append c (n ∷ ns) ms h = refl

names-join : (p q : String) → names (p <> ("." <> q)) ≡ names p ++ names q
names-join String.[] q = ap names (append_nil ("." <> q)) ∙ dot_first q
names-join (String.◌∷◌ c p) q =
    ap names (append_cons c p ("." <> q))
    ∙ ground (arith, names-join p q, push-append c (names p) (names q) (names-ne p))

map-append : (ns ms : List String) → map to_part (ns ++ ms) ≡ map to_part ns ++ map to_part ms
map-append [] ms = refl
map-append (n ∷ ns) ms = ap (λ ps. to_part n ∷ ps) (map-append ns ms)

parts-join : (p q : String) → parts (p <> ("." <> q)) ≡ parts p ++ parts q
parts-join p q = ap (map to_part) (names-join p q) ∙ map-append (names p) (names q)

zero_ne : ◌≢◌ {A = String} "0" ""
zero_ne h = cc
