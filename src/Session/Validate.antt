-- ===== src/Session/Validate.antt =====
-- The validation that ends the collection: the last part of `pytest_collection_modifyitems` of
-- conftest.py.
pub mod Passes
use functional_tests.Base.{
  String, Bool, true, false, not, ◌&&◌, ◌||◌, Option, none, some, List, [], ◌∷◌, ◌++◌, ◌==◌,
  text_eq, contains, any, if◌then◌else◌,
}
use functional_tests.Base.Text.{Text, codes}
use functional_tests.Ast.{Node}
use functional_tests.Ast.Every.{is_nil}
use functional_tests.Structure
use functional_tests.Format
use functional_tests.Markers
use functional_tests.ErrorCodes
use functional_tests.Structure.{PyFile, validate_python_files_in_tests}
use functional_tests.Format.{validate_test_format}
use functional_tests.Markers.{validate_marker_reasons}
use functional_tests.ErrorCodes.{Statement, validate_error_codes_sorted}
use functional_tests.Payload.Guard.{Object, exceeds_size_limit}

-- The values of the parameters are `none` for an item without a `callspec`.
pub record Item : Type 0 where
  pub nodeid : String
  pub fspath : Text
  pub params : Option (List Object)

-- The files: the parts of a path, the Python files below a folder, the syntax tree of a file that
-- can be parsed, and the statements of error_codes.py, or
-- `none` if it does not exist.
pub record Files : Type 0 where
  pub parts : Text → List Text
  pub below : List Text → List PyFile
  pub tree : Text → Option Node
  pub error_codes : Option (List Statement)

pub record Errors : Type 0 where
  pub structure : List Structure.Violation
  pub format : List (Text × List Format.Violation)
  pub marker_reason : List (Text × List Markers.Violation)
  pub error_code : List ErrorCodes.Violation
  pub large_param : List String

-- The parts up to the first `tests`.
unfoldable pub tests_dir : List Text → Option (List Text)
tests_dir [] = none
tests_dir (p ∷ ps) =
    let rest = tests_dir ps in
    if p == codes "tests"
    then some (p ∷ [])
    else elim rest [ none ↦ none | some dir ↦ some (p ∷ dir) ]

unfoldable pub structure_errors : Files → List Item → List Structure.Violation
unfolding tests_dir
structure_errors files [] = []
structure_errors files (item ∷ _) = elim (tests_dir (files.parts item.fspath)) [
  | none ↦ []
  | some dir ↦ validate_python_files_in_tests (files.below dir)
]

-- `errors[path] = found`, of what is found for a path that is new.
abbrev pub report {ℓ} : {V : Type ℓ} → Text → List V → List (Text × List V) → List (Text × List V)
report path [] rest = rest
report path (v ∷ vs) rest = (path, v ∷ vs) ∷ rest

abbrev pub Reports : Type 0
Reports = List (Text × List Format.Violation) × List (Text × List Markers.Violation)

-- The body of the loop for an item, and what the items after it add.
unfoldable pub add_reports : Files → Bool → Text → Reports → Reports
add_reports files duplicate path (format, marker_reason) =
    if duplicate || not (contains (files.parts path) (codes "tests"))
    then (format, marker_reason)
    else (
      report path (validate_test_format (files.tree path)) format,
      report path (validate_marker_reasons (files.tree path)) marker_reason,
    )

-- The loop over the items, with `seen_files`.
unfoldable pub file_errors : Files → List Text → List Item → Reports
unfolding add_reports
file_errors files seen [] = ([], [])
file_errors files seen (item ∷ items) =
    let duplicate = contains seen item.fspath in
    let later = if duplicate then seen else item.fspath ∷ seen in
    add_reports files duplicate item.fspath (file_errors files later items)

abbrev pub has_large : Option (List Object) → Bool
has_large none = false
has_large (some values) = any exceeds_size_limit values

unfoldable pub large_param_errors : List Item → List String
large_param_errors [] = []
large_param_errors (item ∷ items) =
    let rest = large_param_errors items in
    if has_large item.params then item.nodeid ∷ rest else rest

unfoldable pub validate_items : Files → List Item → Errors
unfolding structure_errors file_errors large_param_errors
validate_items files items =
    let (format, marker_reason) = file_errors files [] items in
    record {
      structure = structure_errors files items;
      format = format;
      marker_reason = marker_reason;
      error_code = validate_error_codes_sorted files.error_codes;
      large_param = large_param_errors items;
    }

-- Whether the hook ends the session, by `pytest.exit`.
unfoldable pub exits : Files → List Item → Bool
unfolding validate_items
exits files items =
    let errors = validate_items files items in
    not (is_nil errors.structure && is_nil errors.error_code)
    || not (is_nil errors.format)
    || not (is_nil errors.marker_reason)
    || not (is_nil errors.large_param)
