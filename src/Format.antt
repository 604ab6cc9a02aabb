-- ===== src/Format.antt =====
-- The conventions of test functions (framework/test_format_validator.py).
pub mod Conforms
use functional_tests.Base.{
  ℕ, Bool, true, false, not, ◌||◌, ◌&&◌, Option, none, some, List, [], ◌∷◌, ◌++◌, map, ◌==◌,
  contains, text_eq, any, count, ltb, if◌then◌else◌,
}
use functional_tests.Base.Text.{Text, codes, starts_with}
use functional_tests.Ast.{
  Node, name, attribute, call, keyword, list_of, lambda, assertion, function, Nodes, nil, cons,
  walk, gather, to_list,
}

-- The kinds of message, with the function's name and a line; `multiple` has the number of calls.
pub data Violation : Type 0 where
  missing_docstring plain_assert no_execute ids_lambda : Text → ℕ → Violation
  multiple : Text → ℕ → ℕ → Violation

-- A call of a function by its bare name, which passes the test.
abbrev pub calls : (Text → Bool) → Node → Bool
calls p (call _ (name s) _ _) = p s
calls p _ = false

abbrev pub executors : List Text
executors = map codes ("execute_command" ∷ "execute_admin_command" ∷ [])

abbrev pub known_helpers : List Text
known_helpers = map codes (
    "execute_project" ∷ "execute_project_with_insert" ∷ "execute_expression"
    ∷ "execute_expression_with_insert" ∷ "execute_admin_with_retry_command" ∷ "run_window_operator"
    ∷ [])

abbrev pub is_test : Text → Bool
is_test s = starts_with s (codes "test_")

-- Whether some call below the node is of one of the functions.
unfoldable pub calls_one_of : List Text → Node → Bool
unfolding walk
calls_one_of names n = any (calls (contains names)) (walk n)

-- What the first pass adds for a node.
unfoldable pub helper_of : Node → List Text
unfolding calls_one_of
helper_of (function line false s doc args body decorators) =
    if not (is_test s) && calls_one_of executors (function line false s doc args body decorators)
    then s ∷ []
    else []
helper_of _ = []

unfoldable pub helper_functions : Node → List Text
unfolding walk gather helper_of
helper_functions tree = known_helpers ++ gather helper_of (walk tree)

abbrev pub is_assertion : Node → Bool
is_assertion (assertion _ _) = true
is_assertion _ = false

unfoldable pub assertion_errors : Text → Node → List Violation
assertion_errors s (assertion line _) = plain_assert s line ∷ []
assertion_errors s _ = []

abbrev pub is_assert_call : Node → Bool
is_assert_call n = calls (λ s. starts_with s (codes "assert")) n

unfoldable pub call_count : Node → ℕ
unfolding walk
call_count n = count is_assert_call (walk n)

abbrev names_helper : List Text → Node → Bool
names_helper helpers (name s) = contains helpers s
names_helper helpers _ = false

abbrev lists_helper : List Text → Node → Bool
lists_helper helpers (list_of elements) = any (names_helper helpers) (to_list elements)
lists_helper helpers _ = false

abbrev is_parametrize : Node → Bool
is_parametrize (attribute _ _ s) = s == codes "parametrize"
is_parametrize _ = false

abbrev pub passes_executor : List Text → Node → Bool
passes_executor helpers (call _ f args _) =
    is_parametrize f && any (lists_helper helpers) (to_list args)
passes_executor helpers _ = false

abbrev is_ids_lambda : Node → Bool
is_ids_lambda (keyword (some k) (lambda _)) = k == codes "ids"
is_ids_lambda _ = false

abbrev pub has_ids_lambda : Node → Bool
has_ids_lambda (call _ f _ keywords) = is_parametrize f && any is_ids_lambda (to_list keywords)
has_ids_lambda _ = false

abbrev pub call_line : Node → ℕ
call_line (call line _ _ _) = line
call_line _ = 0

unfoldable pub ids_errors : Text → Node → List Violation
ids_errors s d = if has_ids_lambda d then ids_lambda s (call_line d) ∷ [] else []

abbrev pub one_if : Bool → Violation → List Violation
one_if b v = if b then v ∷ [] else []

-- Whether a test runs a command, itself, by a helper, or by a function that it is given.
unfoldable pub executes : List Text → Node → Nodes → Bool
unfolding calls_one_of
executes helpers n decorators =
    calls_one_of executors n
    || calls_one_of helpers n
    || any (passes_executor helpers) (to_list decorators)

-- The body of the second pass, for a test function.
unfoldable pub test_errors : List Text → Node → ℕ → Text → Bool → Nodes → List Violation
unfolding walk gather assertion_errors call_count executes ids_errors
test_errors helpers n line s doc decorators =
    one_if (not doc) (missing_docstring s line)
    ++ gather (assertion_errors s) (walk n)
    ++ one_if (ltb 1 (call_count n)) (multiple s line (call_count n))
    ++ one_if (not (executes helpers n decorators)) (no_execute s line)
    ++ gather (ids_errors s) (to_list decorators)

unfoldable pub node_errors : List Text → Node → List Violation
unfolding test_errors
node_errors helpers (function line false s doc args body decorators) =
    let errors =
      test_errors helpers (function line false s doc args body decorators) line s doc decorators in
    if is_test s then errors else []
node_errors helpers _ = []

-- `none` is a file that cannot be parsed.
unfoldable pub validate_test_format : Option Node → List Violation
unfolding walk gather node_errors helper_functions
validate_test_format none = []
validate_test_format (some tree) = gather (node_errors (helper_functions tree)) (walk tree)
