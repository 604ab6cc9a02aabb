-- ===== src/Markers.antt =====
-- Markers and calls that suppress a test's outcome must say why
-- (framework/marker_reason_validator.py).
pub mod Described
pub mod Explained
use functional_tests.Base.{
  ℕ, Bool, true, false, not, ◌||◌, ◌&&◌, Option, none, some, List, [], ◌∷◌, ◌++◌, map, ◌==◌,
  contains, text_eq, if◌then◌else◌,
}
use functional_tests.Base.Text.{Text, codes}
use functional_tests.Analyzer.Extract.{all_space}
use functional_tests.Ast.{
  Literal, text, Node, name, attribute, constant, call, keyword, function, class_def, Nodes, nil,
  cons, walk, gather, to_list,
}

-- `MARKERS_REQUIRING_REASON`
abbrev pub markers_requiring_reason : List Text
markers_requiring_reason =
    map codes ("skip" ∷ "skipif" ∷ "xfail" ∷ "engine_xfail" ∷ "engine_xcrash" ∷ [])

-- `BARE_DECORATOR_MARKERS`
abbrev pub bare_decorator_markers : List Text
bare_decorator_markers = map codes ("skip" ∷ "xfail" ∷ [])

-- `RUNTIME_SKIP_FUNCTIONS`
abbrev pub runtime_skip_functions : List Text
runtime_skip_functions = map codes ("skip" ∷ "fail" ∷ "xfail" ∷ [])

-- `marker`, `runtime` and `bare` stand for the three messages, each with a line and a name.
pub data Violation : Type 0 where
  marker runtime bare : ℕ → Text → Violation

-- `_marker_name`
unfoldable pub marker_name : Node → Option Text
marker_name (attribute line (attribute _ _ middle) last) =
    if middle == codes "mark" then some last else none
marker_name _ = none

unfoldable pub is_valid_explanation : Node → Bool
unfolding all_space
is_valid_explanation (constant (text t)) = not (all_space t)
is_valid_explanation (constant Literal.other) = false
is_valid_explanation _ = true

abbrev pub names_one : List Text → Option Text → Bool
names_one names none = false
names_one names (some k) = contains names k

-- The first keyword of one of the names decides.
unfoldable pub keyword_explains : List Text → Nodes → Bool
unfolding is_valid_explanation
keyword_explains names nil = false
keyword_explains names (cons (keyword k value) rest) =
    let later = keyword_explains names rest in
    if names_one names k then is_valid_explanation value else later
keyword_explains names (cons _ rest) = keyword_explains names rest

abbrev pub marker_has_valid_reason : Nodes → Bool
marker_has_valid_reason keywords = keyword_explains (codes "reason" ∷ []) keywords

abbrev pub is_pytest : Node → Bool
is_pytest (name s) = s == codes "pytest"
is_pytest _ = false

-- `_runtime_skip_function` of the function that is called.
unfoldable pub runtime_skip_function : Node → Option Text
runtime_skip_function (attribute line owner s) =
    if contains runtime_skip_functions s && is_pytest owner then some s else none
runtime_skip_function (name s) = if contains runtime_skip_functions s then some s else none
runtime_skip_function _ = none

unfoldable pub runtime_call_has_message : Nodes → Nodes → Bool
unfolding keyword_explains
runtime_call_has_message (cons first _) keywords = is_valid_explanation first
runtime_call_has_message nil keywords =
    keyword_explains (codes "reason" ∷ codes "msg" ∷ []) keywords

abbrev pub marker_errors : ℕ → Option Text → Nodes → List Violation
marker_errors line none keywords = []
marker_errors line (some s) keywords =
    if contains markers_requiring_reason s && not (marker_has_valid_reason keywords)
    then marker line s ∷ []
    else []

abbrev pub runtime_errors : ℕ → Option Text → Nodes → Nodes → List Violation
runtime_errors line none args keywords = []
runtime_errors line (some s) args keywords =
    if runtime_call_has_message args keywords then [] else runtime line s ∷ []

-- The body of the first loop.
unfoldable pub call_errors : Node → List Violation
unfolding marker_name keyword_explains runtime_skip_function runtime_call_has_message
call_errors (call line f args keywords) =
    marker_errors line (marker_name f) keywords
    ++ runtime_errors line (runtime_skip_function f) args keywords
call_errors _ = []

abbrev line_of : Node → ℕ
line_of (attribute line _ _) = line
line_of _ = 0

abbrev pub bare_error : ℕ → Option Text → List Violation
bare_error line none = []
bare_error line (some s) = if contains bare_decorator_markers s then bare line s ∷ [] else []

-- A decorator, of which only an attribute can be in error.
unfoldable pub decorator_errors : Node → List Violation
unfolding marker_name
decorator_errors d = bare_error (line_of d) (marker_name d)

-- The body of the second loop.
unfoldable pub bare_errors : Node → List Violation
unfolding decorator_errors gather
bare_errors (function _ _ _ _ _ _ decorators) = gather decorator_errors (to_list decorators)
bare_errors (class_def _ _ decorators) = gather decorator_errors (to_list decorators)
bare_errors _ = []

-- `none` is a file that cannot be parsed.
unfoldable pub validate_marker_reasons : Option Node → List Violation
unfolding walk gather call_errors bare_errors
validate_marker_reasons none = []
validate_marker_reasons (some tree) =
    gather call_errors (walk tree) ++ gather bare_errors (walk tree)
