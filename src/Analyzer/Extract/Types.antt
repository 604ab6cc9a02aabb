-- ===== src/Analyzer/Extract/Types.antt =====
-- Which crash messages count as infrastructure errors (`is_infrastructure_error` of analyzer.py).
use functional_tests.Base.{
  ℕ, ◌≡◌, refl, ◌≢◌, ◌↔◌, Bool, true, false, List, [], ◌∷◌, ◌++◌, arith, all, nat_eq, text_eq,
  contains,
}
use functional_tests.Base.Text.{Text, span, is_space, is_name_char}
use functional_tests.Base.Span.{span-append, span-run}
use functional_tests.Analyzer.Extract.{
  type_of_match, extract_exception_type, infra_exception_names, is_infra_message,
}

colon_is_no_name : is_name_char b':' ≡ false
unfolding is_name_char
colon_is_no_name = refl

-- A dotted name, a colon and white space in front yield the name.
extract_exception_type-name :
    (name : Text) (d : ℕ) (rest : Text)
    → all is_name_char name ≡ true
    → is_space d ≡ true
    → extract_exception_type (name ++ b':' ∷ d ∷ rest) ≡ name
unfolding extract_exception_type
extract_exception_type-name name d rest h space =
    rw (span-run is_name_char name b':' (d ∷ rest) h colon_is_no_name) (rw space)

type_of_match-shape :
    (name rest : Text)
    → type_of_match name rest ≢ []
    → (d : ℕ) × (tail : Text) × (rest ≡ b':' ∷ d ∷ tail)
      × (is_space d ≡ true)
      × (type_of_match name rest ≡ name)
unfolding type_of_match
type_of_match-shape name [] h = absurd (h refl)
type_of_match-shape name (c ∷ []) h = absurd (h refl)
type_of_match-shape name (c ∷ d ∷ tail) h = (d, tail, ground arith, ground arith, ground arith)

-- A type that is found stands in front of a colon and white space.
extract_exception_type-shape :
    (message : Text)
    → extract_exception_type message ≢ []
    → (d : ℕ) × (rest : Text) × (message ≡ extract_exception_type message ++ b':' ∷ d ∷ rest)
      × (is_space d ≡ true)
unfolding extract_exception_type
extract_exception_type-shape message h =
    let (name, rest) = span is_name_char message in
    let (d, tail, at_colon, space, whole) = type_of_match-shape name rest h in
    (d, tail, cc (span-append is_name_char message, at_colon, whole), space)

names_are_names : all (λ name. all is_name_char name) infra_exception_names ≡ true
unfolding is_name_char infra_exception_names
names_are_names = refl

append-ne : (name : Text) (c : ℕ) (rest : Text) → name ++ c ∷ rest ≢ []
append-ne [] c rest h = cc
append-ne (a ∷ name) c rest h = cc

-- The form that CPython prints for an exception of the given type.
abbrev pub Raised : Text → Text → Type 0
Raised message name =
    (d : ℕ) × (rest : Text) × (message ≡ name ++ b':' ∷ d ∷ rest) × (is_space d ≡ true)

infra-Raised :
    (message : Text)
    → is_infra_message message ≡ true
    → (name : Text) × (contains infra_exception_names name ≡ true) × Raised message name
unfolding is_infra_message
infra-Raised message h = (
  extract_exception_type message,
  ground arith,
  extract_exception_type-shape message (ground arith),
)

contains-all :
    (p : Text → Bool) (names : List Text) (name : Text)
    → all p names ≡ true
    → contains names name ≡ true
    → p name ≡ true
contains-all p [] name h m = cc
contains-all p (n ∷ names) name h m = ground (arith, contains-all p names name)

no_empty_name : contains infra_exception_names [] ≡ false
unfolding infra_exception_names text_eq
no_empty_name = refl

Raised-infra :
    (message name : Text)
    → contains infra_exception_names name ≡ true
    → Raised message name
    → is_infra_message message ≡ true
unfolding is_infra_message
Raised-infra message name known (d, rest, shape, space) =
    rw
      (
        shape,
        extract_exception_type-name name d rest
            (contains-all (λ name. all is_name_char name) infra_exception_names name names_are_names
              known)
            space,
      )
      (ground (arith, no_empty_name, append-ne name b':' (d ∷ rest)))

-- A message is one of an infrastructure error exactly if one of the listed exception names, a colon
-- and a white space character stand at its head.
pub is_infra_message_iff :
    (message : Text)
    → (is_infra_message message ≡ true)
      ↔ ((name : Text) × (contains infra_exception_names name ≡ true) × Raised message name)
is_infra_message_iff message =
    (infra-Raised message, λ (name, known, raised). Raised-infra message name known raised)
