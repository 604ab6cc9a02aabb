-- ===== src/Format/Conforms.antt =====
-- Which files the validator of the format accepts (framework/test_format_validator.py).
use mathlib.Core.Path.{fun_ext}
use functional_tests.Base.{
  ℕ, ◌≡◌, refl, ◌∙◌, ◌↔◌, Bool, true, false, not, ◌||◌, ◌&&◌, some, List, [], ◌∷◌, arith, all, any,
  contains, ltb, leb, text_eq,
}
use functional_tests.Base.Text.{Text}
use functional_tests.Ast.{
  Node, name, attribute, constant, call, keyword, list_of, lambda, assertion, function, class_def,
  other, Nodes, walk, gather, to_list,
}
use functional_tests.Ast.Every.{every, is_nil, is_nil-append, gather-is_nil, all-walk, gather-walk}
use functional_tests.Format.{
  Violation, calls, executors, is_test, calls_one_of, helper_functions, is_assertion,
  assertion_errors, call_count, passes_executor, has_ids_lambda, ids_errors, one_if, executes,
  test_errors, node_errors, validate_test_format,
}

-- Some node of the tree, at any depth, passes the test.
abbrev pub some_node : (Node → Bool) → Node → Bool
some_node p n = not (every (λ m. not (p m)) n)

any-all : (p : Node → Bool) (xs : List Node) → any p xs ≡ not (all (λ m. not (p m)) xs)
any-all p [] = refl
any-all p (x ∷ xs) = ground (arith, any-all p xs)

calls_one_of_lem :
    (names : List Text) (n : Node) → calls_one_of names n ≡ some_node (calls (contains names)) n
unfolding calls_one_of
calls_one_of_lem names n = rw (← all-walk) (any-all (calls (contains names)) (walk n))

-- What is asked of a test function.
abbrev pub test_conforms : List Text → Node → Bool → Nodes → Bool
test_conforms helpers n doc decorators =
    doc
    && every (λ m. not (is_assertion m)) n
    && leb (call_count n) 1
    && (some_node (calls (contains executors)) n
        || some_node (calls (contains helpers)) n
        || any (passes_executor helpers) (to_list decorators))
    && all (λ d. not (has_ids_lambda d)) (to_list decorators)

abbrev pub conforms : List Text → Node → Bool
conforms helpers (function line false s doc args body decorators) =
    not (is_test s)
    || test_conforms helpers (function line false s doc args body decorators) doc decorators
conforms helpers _ = true

assertion_errors-nil : (s : Text) (n : Node) → is_nil (assertion_errors s n) ≡ not (is_assertion n)
unfolding assertion_errors
assertion_errors-nil s (assertion line ns) = refl
assertion_errors-nil s (call _ _ _ _) = refl
assertion_errors-nil s (name _) = refl
assertion_errors-nil s (attribute line n _) = refl
assertion_errors-nil s (constant c) = refl
assertion_errors-nil s (keyword k n) = refl
assertion_errors-nil s (list_of ns) = refl
assertion_errors-nil s (lambda ns) = refl
assertion_errors-nil s (function _ _ _ _ _ _ _) = refl
assertion_errors-nil s (class_def _ _ _) = refl
assertion_errors-nil s (other line ns) = refl

ids_errors-nil : (s : Text) (d : Node) → is_nil (ids_errors s d) ≡ not (has_ids_lambda d)
unfolding ids_errors
ids_errors-nil s d = ground arith

one_if-nil : (b : Bool) (v : Violation) → is_nil (one_if b v) ≡ not b
one_if-nil true v = refl
one_if-nil false v = refl

some_true : (b : Bool) → not (not b) ≡ b
some_true true = refl
some_true false = refl

executes_lem :
    (helpers : List Text) (n : Node) (decorators : Nodes)
    → executes helpers n decorators ≡ (
        some_node (calls (contains executors)) n
        || some_node (calls (contains helpers)) n
        || any (passes_executor helpers) (to_list decorators))
unfolding executes
executes_lem helpers n decorators = rw (calls_one_of_lem executors n, calls_one_of_lem helpers n)

no_assertions :
    (s : Text) (n : Node)
    → is_nil (gather (assertion_errors s) (walk n)) ≡ every (λ m. not (is_assertion m)) n
no_assertions s n =
    gather-is_nil (assertion_errors s) (walk n)
    ∙ rw (fun_ext (assertion_errors-nil s)) (all-walk (λ m. not (is_assertion m)) n)

no_lambdas :
    (s : Text) (ns : Nodes)
    → is_nil (gather (ids_errors s) (to_list ns)) ≡ all (λ d. not (has_ids_lambda d)) (to_list ns)
no_lambdas s ns = gather-is_nil (ids_errors s) (to_list ns) ∙ rw (fun_ext (ids_errors-nil s))

few : (n : ℕ) → not (ltb 1 n) ≡ leb n 1
few n = ground arith

test_errors-nil :
    (helpers : List Text) (n : Node) (line : ℕ) (s : Text) (doc : Bool) (decorators : Nodes)
    → is_nil (test_errors helpers n line s doc decorators) ≡ test_conforms helpers n doc decorators
unfolding test_errors
test_errors-nil helpers n line s doc decorators = rw (
  is_nil-append, is_nil-append, is_nil-append, is_nil-append, one_if-nil, no_assertions, no_lambdas,
  one_if-nil, one_if-nil, some_true, some_true, few, executes_lem,
)

node_errors-nil :
    (helpers : List Text) (n : Node) → is_nil (node_errors helpers n) ≡ conforms helpers n
unfolding node_errors
node_errors-nil helpers (function line false s doc args body decorators) = ground (
  arith,
  test_errors-nil helpers (function line false s doc args body decorators) line s doc decorators,
)
node_errors-nil helpers (function line true s doc args body decorators) = refl
node_errors-nil helpers (assertion line ns) = refl
node_errors-nil helpers (call _ _ _ _) = refl
node_errors-nil helpers (name _) = refl
node_errors-nil helpers (attribute line n _) = refl
node_errors-nil helpers (constant c) = refl
node_errors-nil helpers (keyword k n) = refl
node_errors-nil helpers (list_of ns) = refl
node_errors-nil helpers (lambda ns) = refl
node_errors-nil helpers (class_def _ _ _) = refl
node_errors-nil helpers (other line ns) = refl

pub validate_test_format_nil :
    (tree : Node)
    → (validate_test_format (some tree) ≡ [])
      ↔ (every (conforms (helper_functions tree)) tree ≡ true)
unfolding validate_test_format
validate_test_format_nil tree =
    rw (← fun_ext (node_errors-nil (helper_functions tree)))
      (gather-walk (node_errors (helper_functions tree)) tree)
