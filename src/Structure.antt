-- ===== src/Structure.antt =====
-- Where test files stand and how they are named (framework/test_structure_validator.py).
pub mod Placed
use functional_tests.Base.{
  Bool, true, false, not, ◌||◌, List, [], ◌∷◌, ◌++◌, map, ◌==◌, contains, text_eq, any,
  if◌then◌else◌,
}
use functional_tests.Base.Text.{Text, codes, starts_with, has_substring}
use functional_tests.Ast.{gather}

-- A file that `rglob("*.py")` finds: `name`, `stem`, the name of the parent, and all `parts`.
pub record PyFile : Type 0 where
  pub name : Text
  pub stem : Text
  pub parent : Text
  pub parts : List Text

pub data Violation : Type 0 where
  in_root bad_prefix lacks_folder : PyFile → Violation

abbrev pub exempt_names : List Text
exempt_names = map codes ("__init__.py" ∷ "conftest.py" ∷ [])

abbrev pub allowed_folders : List Text
allowed_folders = map codes ("utils" ∷ "fixtures" ∷ "__pycache__" ∷ [])

unfoldable pub is_exempt : PyFile → Bool
is_exempt f = contains exempt_names f.name || any (contains f.parts) allowed_folders

abbrev pub unless : Bool → Violation → List Violation
unless b v = if b then [] else v ∷ []

abbrev pub has_prefix : PyFile → Bool
has_prefix f = starts_with f.stem (codes "test_")

abbrev pub names_folder : PyFile → Bool
names_folder f = has_substring f.parent f.stem

-- The body of the loop.
unfoldable pub file_errors : PyFile → List Violation
unfolding is_exempt
file_errors f =
    if is_exempt f
    then []
    else if f.parent == codes "tests"
    then in_root f ∷ []
    else unless (has_prefix f) (bad_prefix f) ++ unless (names_folder f) (lacks_folder f)

unfoldable pub validate_python_files_in_tests : List PyFile → List Violation
unfolding gather file_errors
validate_python_files_in_tests files = gather file_errors files
