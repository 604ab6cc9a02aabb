-- ===== src/Markers/Described.antt =====
-- What an explanation is, a marker and a runtime call, said apart from the code of
-- framework/marker_reason_validator.py, and that the code finds the same.
use functional_tests.Base.{
  ◌≡◌, refl, Bool, true, false, not, ◌||◌, ◌&&◌, Option, none, some, List, [], ◌∷◌, ◌==◌, text_eq,
  contains, any, arith, if◌then◌else◌,
}
use functional_tests.Base.Text.{Text, codes, is_space}
use functional_tests.Analyzer.Extract.{all_space}
use functional_tests.Ast.{
  Literal, text, Node, name, attribute, constant, call, keyword, list_of, lambda, assertion,
  function, class_def, other, Nodes, nil, cons,
}
use functional_tests.Markers.{
  runtime_skip_functions, marker_name, is_valid_explanation, names_one, keyword_explains,
  runtime_skip_function, runtime_call_has_message,
}

-- A literal is one if it is a text with a character that is no white space; what is no literal is
-- taken on trust.
abbrev pub is_explanation : Node → Bool
is_explanation (constant (text t)) = any (λ c. not (is_space c)) t
is_explanation (constant Literal.other) = false
is_explanation _ = true

-- The value of the first keyword with one of the names.
abbrev pub value_of : List Text → Nodes → Option Node
value_of names nil = none
value_of names (cons (keyword k value) rest) =
    let later = value_of names rest in if names_one names k then some value else later
value_of names (cons _ rest) = value_of names rest

abbrev pub is_given : Option Node → Bool
is_given none = false
is_given (some value) = is_explanation value

-- The first argument.
abbrev pub message_of : Nodes → Nodes → Option Node
message_of (cons first _) keywords = some first
message_of nil keywords = value_of (codes "reason" ∷ codes "msg" ∷ []) keywords

-- `<anything>.mark.<one of the names>`
abbrev pub is_mark : List Text → Node → Bool
is_mark names (attribute _ (attribute _ _ middle) last) =
    middle == codes "mark" && contains names last
is_mark names _ = false

-- `skip`, `fail` and `xfail`, by themselves or as `pytest.skip`.
abbrev pub is_runtime_call : Node → Bool
is_runtime_call (attribute _ (name owner) s) =
    owner == codes "pytest" && contains runtime_skip_functions s
is_runtime_call (name s) = contains runtime_skip_functions s
is_runtime_call _ = false

abbrev pub is_some : Option Text → Bool
is_some none = false
is_some (some s) = true

not-and : (a b c : Bool) → not b ≡ c → not (a && b) ≡ (not a || c)
not-and true b c h = h
not-and false b c h = refl

not-all_space : (t : Text) → not (all_space t) ≡ any (λ c. not (is_space c)) t
unfolding all_space
not-all_space [] = refl
not-all_space (c ∷ t) = not-and (is_space c) (all_space t) _ (not-all_space t)

is_valid_explanation_lem : (n : Node) → is_valid_explanation n ≡ is_explanation n
unfolding is_valid_explanation
is_valid_explanation_lem (constant (text t)) = not-all_space t
is_valid_explanation_lem (constant Literal.other) = refl
is_valid_explanation_lem (name s) = refl
is_valid_explanation_lem (attribute line n s) = refl
is_valid_explanation_lem (call _ _ _ _) = refl
is_valid_explanation_lem (keyword k n) = refl
is_valid_explanation_lem (list_of ns) = refl
is_valid_explanation_lem (lambda ns) = refl
is_valid_explanation_lem (assertion line ns) = refl
is_valid_explanation_lem (function _ _ _ _ _ _ _) = refl
is_valid_explanation_lem (class_def _ _ _) = refl
is_valid_explanation_lem (other line ns) = refl

pub keyword_explains_lem :
    (names : List Text) (keywords : Nodes)
    → keyword_explains names keywords ≡ is_given (value_of names keywords)
unfolding keyword_explains
keyword_explains_lem names nil = refl
keyword_explains_lem names (cons (keyword k value) rest) =
    ground (arith, is_valid_explanation_lem value, keyword_explains_lem names rest)
keyword_explains_lem names (cons (constant c) rest) = keyword_explains_lem names rest
keyword_explains_lem names (cons (name s) rest) = keyword_explains_lem names rest
keyword_explains_lem names (cons (attribute line n s) rest) = keyword_explains_lem names rest
keyword_explains_lem names (cons (call _ _ _ _) rest) = keyword_explains_lem names rest
keyword_explains_lem names (cons (list_of ns) rest) = keyword_explains_lem names rest
keyword_explains_lem names (cons (lambda ns) rest) = keyword_explains_lem names rest
keyword_explains_lem names (cons (assertion line ns) rest) = keyword_explains_lem names rest
keyword_explains_lem names (cons (function _ _ _ _ _ _ _) rest) = keyword_explains_lem names rest
keyword_explains_lem names (cons (class_def _ _ _) rest) = keyword_explains_lem names rest
keyword_explains_lem names (cons (other line ns) rest) = keyword_explains_lem names rest

pub runtime_call_has_message_lem :
    (args keywords : Nodes)
    → runtime_call_has_message args keywords ≡ is_given (message_of args keywords)
unfolding runtime_call_has_message
runtime_call_has_message_lem nil keywords =
    keyword_explains_lem (codes "reason" ∷ codes "msg" ∷ []) keywords
runtime_call_has_message_lem (cons first rest) keywords = is_valid_explanation_lem first

pub marker_name_lem :
    (names : List Text) (f : Node) → names_one names (marker_name f) ≡ is_mark names f
unfolding marker_name
marker_name_lem names (attribute _ (attribute _ _ middle) last) = ground arith
marker_name_lem names _ = refl

pub runtime_skip_function_lem : (f : Node) → is_some (runtime_skip_function f) ≡ is_runtime_call f
unfolding runtime_skip_function
runtime_skip_function_lem (attribute _ (name owner) s) = ground arith
runtime_skip_function_lem (name s) = ground arith
runtime_skip_function_lem (attribute _ _ s) = ground arith
runtime_skip_function_lem _ = refl
