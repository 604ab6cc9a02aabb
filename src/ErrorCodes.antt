-- ===== src/ErrorCodes.antt =====
-- The check that error_codes.py is sorted and free of duplicates (framework/error_codes_validator.py).
pub mod Order
pub mod Table
use functional_tests.Base.{
  ℕ, String, Bool, true, false, Option, none, some, List, [], ◌∷◌, ◌++◌, ltb, nat_eq, if◌then◌else◌,
}
use functional_tests.Base.Dict.{Dict, lookup, insert}

-- `(name, value, line)` of an assignment of an integer constant.
pub record Code : Type 0 where
  pub name : String
  pub value : ℕ
  pub line : ℕ

abbrev pub assign : String → ℕ → ℕ → Code
assign name value line = record { name = name; value = value; line = line }

-- A child of the module's syntax tree: such an assignment to one name, or anything else.
pub data Statement : Type 0 where
  int_assign : Code → Statement
  other : Statement

unfoldable pub codes_of : List Statement → List Code
codes_of [] = []
codes_of (int_assign c ∷ rest) = c ∷ codes_of rest
codes_of (other ∷ rest) = codes_of rest

-- The three kinds of message: the file is not there, and two with the assignment at fault and the
-- earlier one.
pub data Violation : Type 0 where
  not_found : Violation
  out_of_order duplicates : Code → Code → Violation

-- The loop over neighbours.
unfoldable pub order_errors : List Code → List Violation
order_errors [] = []
order_errors (prev ∷ []) = []
order_errors (prev ∷ curr ∷ rest) =
    let later = order_errors (curr ∷ rest) in
    if ltb curr.value prev.value then out_of_order curr prev ∷ later else later

abbrev note_duplicate : Code → Option Code → List Violation
note_duplicate c none = []
note_duplicate c (some first) = duplicates c first ∷ []

abbrev remember : Code → Option Code → Dict ℕ Code → Dict ℕ Code
remember c none seen = insert c.value c seen
remember c (some first) seen = seen

-- The loop over all codes, with `seen`.
unfoldable pub duplicate_errors : Dict ℕ Code → List Code → List Violation
duplicate_errors seen [] = []
duplicate_errors seen (c ∷ rest) =
    let first = lookup c.value seen in
    note_duplicate c first ++ duplicate_errors (remember c first seen) rest

-- `none` is a file that does not exist.
unfoldable pub validate_error_codes_sorted : Option (List Statement) → List Violation
unfolding codes_of order_errors duplicate_errors
validate_error_codes_sorted none = not_found ∷ []
validate_error_codes_sorted (some statements) =
    let codes = codes_of statements in order_errors codes ++ duplicate_errors [] codes
