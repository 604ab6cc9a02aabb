-- ===== src/Structure/Placed.antt =====
-- Which files the validator of the structure accepts (framework/test_structure_validator.py).
use functional_tests.Base.{
  ◌≡◌, ◌↔◌, Bool, true, not, ◌||◌, ◌&&◌, List, [], arith, all, ◌==◌, text_eq,
}
use functional_tests.Base.Text.{codes}
use functional_tests.Ast.Every.{is_nil, gather-nil}
use functional_tests.Structure.{
  PyFile, is_exempt, has_prefix, names_folder, file_errors, validate_python_files_in_tests,
}
use mathlib.Core.Path.{fun_ext}

abbrev pub is_placed : PyFile → Bool
is_placed f = is_exempt f || not (f.parent == codes "tests") && has_prefix f && names_folder f

file_errors-nil : (f : PyFile) → is_nil (file_errors f) ≡ is_placed f
unfolding file_errors
file_errors-nil f = ground arith

-- The files are accepted exactly if each is exempt by its name or by a folder that it is in, or does
-- not stand directly in a folder `tests` and has a name that begins with `test_` and has the name of
-- its folder anywhere in it.
pub validate_python_files_in_tests_nil :
    (files : List PyFile)
    → (validate_python_files_in_tests files ≡ []) ↔ (all is_placed files ≡ true)
unfolding validate_python_files_in_tests
validate_python_files_in_tests_nil files =
    rw (← fun_ext file_errors-nil) (gather-nil file_errors files)
