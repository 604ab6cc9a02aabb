-- ===== src/Markers/Explained.antt =====
-- Which files the validator of markers accepts (framework/marker_reason_validator.py).
use mathlib.Core.Path.{fun_ext}
use functional_tests.Base.{
  ℕ, ◌≡◌, refl, ◌↔◌, Bool, true, not, ◌||◌, ◌&&◌, Option, none, some, [], ◌∷◌, arith, all, text_eq,
}
use functional_tests.Base.Text.{Text, codes}
use functional_tests.Ast.{
  Node, name, attribute, constant, call, keyword, list_of, lambda, assertion, function, class_def,
  other, Nodes, nil, cons, walk, gather, to_list,
}
use functional_tests.Ast.Every.{every, is_nil, is_nil-append, append-nil_iff, gather-walk}
use functional_tests.Markers.Described.{
  value_of, is_given, message_of, is_mark, is_runtime_call, is_some, marker_name_lem,
  keyword_explains_lem, runtime_skip_function_lem, runtime_call_has_message_lem,
}
use functional_tests.Markers.{
  markers_requiring_reason, bare_decorator_markers, marker_name, marker_has_valid_reason,
  runtime_skip_function, runtime_call_has_message, names_one, marker_errors, runtime_errors,
  call_errors, bare_error, decorator_errors, bare_errors, validate_marker_reasons,
}

-- A call of a suppressing marker passes an explanation by `reason`, and a runtime call has one for its
-- message.
abbrev pub call_explained : Node → Bool
call_explained (call line f args keywords) =
    (not (is_mark markers_requiring_reason f) || is_given (value_of (codes "reason" ∷ []) keywords))
    && (not (is_runtime_call f) || is_given (message_of args keywords))
call_explained _ = true

-- No decorator is a marker without a call.
abbrev pub decorators_explained : Node → Bool
decorators_explained (function _ _ _ _ _ _ decorators) =
    all (λ d. not (is_mark bare_decorator_markers d)) (to_list decorators)
decorators_explained (class_def _ _ decorators) =
    all (λ d. not (is_mark bare_decorator_markers d)) (to_list decorators)
decorators_explained _ = true

marker_errors-nil :
    (line : ℕ) (o : Option Text) (keywords : Nodes)
    → is_nil (marker_errors line o keywords)
      ≡ (not (names_one markers_requiring_reason o) || marker_has_valid_reason keywords)
marker_errors-nil line none keywords = refl
marker_errors-nil line (some s) keywords = ground arith

runtime_errors-nil :
    (line : ℕ) (o : Option Text) (args keywords : Nodes)
    → is_nil (runtime_errors line o args keywords)
      ≡ (not (is_some o) || runtime_call_has_message args keywords)
runtime_errors-nil line none args keywords = refl
runtime_errors-nil line (some s) args keywords = ground arith

call_errors-nil : (n : Node) → is_nil (call_errors n) ≡ call_explained n
unfolding call_errors
call_errors-nil (call line f args keywords) = ground (
  arith,
  is_nil-append (marker_errors line (marker_name f) keywords)
      (runtime_errors line (runtime_skip_function f) args keywords),
  marker_errors-nil line (marker_name f) keywords,
  marker_name_lem markers_requiring_reason f,
  keyword_explains_lem (codes "reason" ∷ []) keywords,
  runtime_errors-nil line (runtime_skip_function f) args keywords,
  runtime_skip_function_lem f,
  runtime_call_has_message_lem args keywords,
)
call_errors-nil (name s) = refl
call_errors-nil (attribute line n s) = refl
call_errors-nil (constant c) = refl
call_errors-nil (keyword k n) = refl
call_errors-nil (list_of ns) = refl
call_errors-nil (lambda ns) = refl
call_errors-nil (assertion line ns) = refl
call_errors-nil (function _ _ _ _ _ _ _) = refl
call_errors-nil (class_def _ _ _) = refl
call_errors-nil (other line ns) = refl

bare_error-nil :
    (line : ℕ) (o : Option Text)
    → is_nil (bare_error line o) ≡ not (names_one bare_decorator_markers o)
bare_error-nil line none = refl
bare_error-nil line (some s) = ground arith

decorators-nil :
    (ns : Nodes)
    → is_nil (gather decorator_errors (to_list ns))
      ≡ all (λ d. not (is_mark bare_decorator_markers d)) (to_list ns)
unfolding gather decorator_errors
decorators-nil nil = refl
decorators-nil (cons n ns) = ground (
  arith,
  is_nil-append (decorator_errors n) (gather decorator_errors (to_list ns)),
  bare_error-nil _ (marker_name n),
  marker_name_lem bare_decorator_markers n,
  decorators-nil ns,
)

bare_errors-nil : (n : Node) → is_nil (bare_errors n) ≡ decorators_explained n
unfolding bare_errors
bare_errors-nil (function _ _ _ _ _ _ decorators) = decorators-nil decorators
bare_errors-nil (class_def _ _ decorators) = decorators-nil decorators
bare_errors-nil (call _ _ _ _) = refl
bare_errors-nil (name s) = refl
bare_errors-nil (attribute line n s) = refl
bare_errors-nil (constant c) = refl
bare_errors-nil (keyword k n) = refl
bare_errors-nil (list_of ns) = refl
bare_errors-nil (lambda ns) = refl
bare_errors-nil (assertion line ns) = refl
bare_errors-nil (other line ns) = refl

-- A file that can be parsed is accepted exactly if, for every node of its tree at any depth: if the
-- node is a call of a marker that must give a reason, its first keyword `reason` gives an explanation;
-- if it is a runtime call, its first argument does, or else its first keyword `reason` or `msg`; and
-- if it is a function or a class, no decorator of it is a bare `skip` or `xfail` marker. A string
-- literal is an explanation if it has a character that is no white space, any other literal is none,
-- and an expression that is no literal is one. Markers without a call elsewhere are not looked at.
pub validate_marker_reasons_nil :
    (tree : Node)
    → (validate_marker_reasons (some tree) ≡ [])
      ↔ ((every call_explained tree ≡ true) × (every decorators_explained tree ≡ true))
unfolding validate_marker_reasons
validate_marker_reasons_nil tree =
    rw (← fun_ext call_errors-nil, ← fun_ext bare_errors-nil)
      (let (f, g) =
          append-nil_iff (gather call_errors (walk tree)) (gather bare_errors (walk tree)) in
        let (h, k) = gather-walk call_errors tree in
        let (m, n) = gather-walk bare_errors tree in
        (λ e. let (a, b) = f e in (h a, m b), λ (a, b). g (k a, n b)))
