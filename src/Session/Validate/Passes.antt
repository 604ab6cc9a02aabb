-- ===== src/Session/Validate/Passes.antt =====
-- What the validation at the end of the collection accepts (conftest.py).
use mathlib.Core.Path.{fun_ext}
use functional_tests.Base.{
  ◌≡◌, refl, sym, ap, ◌∙◌, ◌↔◌, Bool, true, false, not, ◌&&◌, ◌||◌, Option, none, some, List, [],
  ◌∷◌, ◌==◌, text_eq, contains, any, all, arith, if◌then◌else◌, ltb, Bool-cases, inl, inr,
}
use functional_tests.Base.Text.{Text, codes}
use functional_tests.Ast.{Node}
use functional_tests.Ast.Every.{every, is_nil}
use functional_tests.Structure.{validate_python_files_in_tests}
use functional_tests.Structure.Placed.{is_placed, validate_python_files_in_tests_nil}
use functional_tests.Format.{helper_functions, validate_test_format}
use functional_tests.Format.Conforms.{conforms, validate_test_format_nil}
use functional_tests.Markers.{validate_marker_reasons}
use functional_tests.Markers.Explained.{
  call_explained, decorators_explained, validate_marker_reasons_nil,
}
use functional_tests.ErrorCodes.{Statement, codes_of, validate_error_codes_sorted}
use functional_tests.ErrorCodes.Order.{increasing, increasing_iff, validate_error_codes_sorted_nil}
use functional_tests.Payload.Guard.{Object, exceeds_size_limit, param_size_limit_bytes}
use functional_tests.Payload.Guard.Budget.{full_size, exceeds_size_limit_lem}
use functional_tests.Session.Validate.{
  Item, Files, tests_dir, structure_errors, Reports, add_reports, report, file_errors, has_large,
  large_param_errors, validate_items, exits,
}

-- A tree in which every node keeps the rules of tests and of markers. A file that cannot be parsed
-- is left to pytest.
abbrev pub tree_ok : Option Node → Bool
tree_ok none = true
tree_ok (some t) =
    every (conforms (helper_functions t)) t
    && (every call_explained t && every decorators_explained t)

abbrev pub path_ok : Files → Text → Bool
path_ok files path = not (contains (files.parts path) (codes "tests")) || tree_ok (files.tree path)

abbrev pub placed_ok : Files → List Item → Bool
placed_ok files [] = true
placed_ok files (item ∷ _) = elim (tests_dir (files.parts item.fspath)) [
  | none ↦ true
  | some dir ↦ all is_placed (files.below dir)
]

abbrev pub error_codes_ok : Files → Bool
error_codes_ok files = elim files.error_codes [
  | none ↦ false
  | some statements ↦ increasing (codes_of statements)
]

abbrev pub is_large : Object → Bool
is_large value = ltb param_size_limit_bytes (full_size value []).0

abbrev pub params_ok : Item → Bool
params_ok item = elim item.params [ none ↦ true | some values ↦ not (any is_large values) ]

nil_of {ℓ} : {A : Type ℓ} (xs : List A) (b : Bool) → (xs ≡ []) ↔ (b ≡ true) → is_nil xs ≡ b
nil_of [] b (f, g) = sym (f refl)
nil_of (x ∷ xs) false h = refl
nil_of (x ∷ xs) true (f, g) = ground (arith, g refl)

nil_of_both {ℓ} :
    {A : Type ℓ} (xs : List A) (a b : Bool)
    → (xs ≡ []) ↔ ((a ≡ true) × (b ≡ true))
    → is_nil xs ≡ (a && b)
nil_of_both xs a b (f, g) =
    nil_of xs (a && b)
      (λ e. let (p, q) = f e in ground (arith, p, q), λ h. g (ground (arith, h), ground (arith, h)))

tree_ok_lem :
    (tree : Option Node)
    → (is_nil (validate_test_format tree) && is_nil (validate_marker_reasons tree)) ≡ tree_ok tree
unfolding validate_test_format validate_marker_reasons
tree_ok_lem none = refl
tree_ok_lem (some t) =
    let format =
      nil_of (validate_test_format (some t)) (every (conforms (helper_functions t)) t)
        (validate_test_format_nil t) in
    let markers =
      nil_of_both (validate_marker_reasons (some t)) (every call_explained t)
        (every decorators_explained t) (validate_marker_reasons_nil t) in
    ap (λ b. b && is_nil (validate_marker_reasons (some t))) format
    ∙ ap (λ b. every (conforms (helper_functions t)) t && b) markers

placed_ok_lem :
    (files : Files) (items : List Item)
    → is_nil (structure_errors files items) ≡ placed_ok files items
unfolding structure_errors
placed_ok_lem files [] = refl
placed_ok_lem files (item ∷ items) = go (tests_dir (files.parts item.fspath))
  where
    go :
        (dir : Option (List Text))
        → is_nil
            (elim dir [ none ↦ [] | some dir ↦ validate_python_files_in_tests (files.below dir) ])
          ≡ elim dir [ none ↦ true | some dir ↦ all is_placed (files.below dir) ]
    go none = refl
    go (some dir) =
        nil_of (validate_python_files_in_tests (files.below dir)) (all is_placed (files.below dir))
          (validate_python_files_in_tests_nil (files.below dir))

error_codes_ok_lem :
    (files : Files) → is_nil (validate_error_codes_sorted files.error_codes) ≡ error_codes_ok files
unfolding validate_error_codes_sorted
error_codes_ok_lem files = go files.error_codes
  where
    go :
        (o : Option (List Statement))
        → is_nil (validate_error_codes_sorted o)
          ≡ elim o [ none ↦ false | some statements ↦ increasing (codes_of statements) ]
    go none = refl
    go (some statements) =
        let (f, g) = validate_error_codes_sorted_nil statements in
        let (h, k) = increasing_iff (codes_of statements) in
        nil_of (validate_error_codes_sorted (some statements)) (increasing (codes_of statements))
          (λ e. h (f e), λ b. g (k b))

any_large : (values : List Object) → any exceeds_size_limit values ≡ any is_large values
any_large values = ap (λ p. any p values) (fun_ext exceeds_size_limit_lem)

params_ok_lem : (item : Item) → has_large item.params ≡ not (params_ok item)
params_ok_lem item = go item.params
  where
    go :
        (params : Option (List Object))
        → has_large params
          ≡ not (elim params [ none ↦ true | some values ↦ not (any is_large values) ])
    go none = refl
    go (some values) = ground (arith, any_large values)

large_param_errors-nil :
    (items : List Item) → is_nil (large_param_errors items) ≡ all params_ok items
unfolding large_param_errors
large_param_errors-nil [] = refl
large_param_errors-nil (item ∷ items) =
    ground (arith, params_ok_lem item, large_param_errors-nil items)

is_nil-report {ℓ} :
    {V : Type ℓ} (path : Text) (vs : List V) (rest : List (Text × List V))
    → is_nil (report path vs rest) ≡ (is_nil vs && is_nil rest)
is_nil-report path [] rest = refl
is_nil-report path (v ∷ vs) rest = refl

-- The paths that are not among those seen are accepted.
abbrev others_ok : Files → List Text → List Item → Bool
others_ok files seen items = all (λ i. contains seen i.fspath || path_ok files i.fspath) items

or_seen :
    (ok : Text → Bool) (p q : Text) (c : Bool) → ok q ≡ true → (p == q || c || ok p) ≡ (c || ok p)
or_seen ok p q c good = ground (arith, good)

others_ok-cons :
    (files : Files) (path : Text) (seen : List Text) (items : List Item)
    → path_ok files path ≡ true
    → others_ok files (path ∷ seen) items ≡ others_ok files seen items
others_ok-cons files path seen [] ok = refl
others_ok-cons files path seen (i ∷ items) ok = ground (
  arith,
  or_seen (path_ok files) i.fspath path (contains seen i.fspath) ok,
  others_ok-cons files path seen items ok,
)

abbrev no_reports : Reports → Bool
no_reports (format, marker_reason) = is_nil format && is_nil marker_reason

add_reports-nil :
    (files : Files) (duplicate : Bool) (path : Text) (r : Reports)
    → no_reports (add_reports files duplicate path r)
      ≡ ((duplicate || path_ok files path) && no_reports r)
unfolding add_reports
add_reports-nil files duplicate path (format, marker_reason) = ground (
  arith,
  tree_ok_lem (files.tree path),
  is_nil-report path (validate_test_format (files.tree path)) format,
  is_nil-report path (validate_marker_reasons (files.tree path)) marker_reason,
)

others_ok-later :
    (files : Files) (path : Text) (seen : List Text) (items : List Item) (duplicate : Bool)
    → ((duplicate || path_ok files path)
        && others_ok files (if duplicate then seen else path ∷ seen) items)
      ≡ ((duplicate || path_ok files path) && others_ok files seen items)
others_ok-later files path seen items true = refl
others_ok-later files path seen items false = elim (Bool-cases (path_ok files path)) [
  | inl ok ↦ ap (λ b. path_ok files path && b) (others_ok-cons files path seen items ok)
  | inr bad ↦ rw bad refl
]

file_errors-nil :
    (files : Files) (seen : List Text) (items : List Item)
    → no_reports (file_errors files seen items) ≡ others_ok files seen items
unfolding file_errors
file_errors-nil files seen [] = refl
file_errors-nil files seen (i ∷ items) =
    let duplicate = contains seen i.fspath in
    let later = if duplicate then seen else i.fspath ∷ seen in
    add_reports-nil files duplicate i.fspath (file_errors files later items)
    ∙ ap (λ b. (duplicate || path_ok files i.fspath) && b) (file_errors-nil files later items)
    ∙ others_ok-later files i.fspath seen items duplicate

pub exits_lem :
    (files : Files) (items : List Item)
    → exits files items
      ≡ not (
          placed_ok files items
          && error_codes_ok files
          && all (λ i. path_ok files i.fspath) items
          && all params_ok items)
unfolding exits validate_items
exits_lem files items = ground (
  arith,
  placed_ok_lem files items,
  error_codes_ok_lem files,
  file_errors-nil files [] items,
  large_param_errors-nil items,
)
