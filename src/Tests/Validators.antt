-- ===== src/Tests/Validators.antt =====
-- The validators of the collection, on a small test file, and documents and cases of BSON types.
use functional_tests.Base.{
  Bool, Option, ◌==◌, if◌then◌else◌, ℕ, ◌+◌, ◌<◌, ◌≡◌, ◌↔◌, refl, true, false, not, ◌&&◌, none,
  some, List, [], ◌∷◌, ◌++◌, map, length, all, ltb, contains, arith, String, string_eq, nat_eq,
  text_eq,
}
use functional_tests.Base.Text.{Text, codes}
use functional_tests.Analyzer.Reconcile.{count_or_zero}
use functional_tests.Ast.{
  Node, name, attribute, constant, text, call, keyword, function, other, Nodes, nil, cons,
}
use functional_tests.Ast.Every.{every, is_nil}
use functional_tests.Format.{helper_functions, validate_test_format}
use functional_tests.Format.Conforms.{conforms, validate_test_format_nil}
use functional_tests.Markers.{validate_marker_reasons}
use functional_tests.Markers.Explained.{
  call_explained, decorators_explained, validate_marker_reasons_nil,
}
use functional_tests.Payload.Guard.{
  Object, object, Shape, Elements, deep_size, exceeds_size_limit, param_size_limit_bytes,
}
use functional_tests.Payload.Guard.Budget.{full_size, exceeds_size_limit_lem}
use functional_tests.Session.Validate.{Item, Files, exits}
use functional_tests.Session.Validate.Passes.{
  path_ok, placed_ok, params_ok, error_codes_ok, exits_lem,
}
use functional_tests.Session.Junit.{Suite, summed_attributes}
use functional_tests.BsonTypes.{
  BsonType, string, int, double, null, bson_type_eq, place, bson_type_dec, BsonTypeTestCase,
}
use functional_tests.BsonTypes.Covered.{ListedOnce}
use functional_tests.RawBson.{Bytes, little_endian, document, build_raw_bson_doc}
use functional_tests.RawBson.Layout.{
  concatenated, declared_length, declared_length-framed_by, framed_by, length-framed_by,
  build_raw_bson_doc_lem,
}

abbrev one : Node → Nodes
one n = cons n nil

-- `pytest.mark.skip`
abbrev skip : Node
skip = attribute 3 (attribute 3 (name (codes "pytest")) (codes "mark")) (codes "skip")

-- A test without a docstring under a bare `skip` marker.
abbrev bad_file : Node
bad_file = other 0 (
    one (
      function 3 false (codes "test_x") false nil
        (one (call 4 (name (codes "execute_command")) nil nil)) (one skip)))

abbrev good_file : Node
good_file = other 0 (
    one (
      function 3 false (codes "test_x") true nil
        (one (call 4 (name (codes "execute_command")) nil nil))
        (one (
          call 3 skip nil
            (one (keyword (some (codes "reason")) (constant (text (codes "slow")))))))))

validate_test_format_nil_example :
    (validate_test_format (some bad_file) ≡ [])
    ↔ (every (conforms (helper_functions bad_file)) bad_file ≡ true)
validate_test_format_nil_example = validate_test_format_nil bad_file

validate_marker_reasons_nil_example :
    (validate_marker_reasons (some good_file) ≡ [])
    ↔ ((every call_explained good_file ≡ true) × (every decorators_explained good_file ≡ true))
validate_marker_reasons_nil_example = validate_marker_reasons_nil good_file

good_markers : validate_marker_reasons (some good_file) ≡ []
unfolding validate_marker_reasons text_eq nat_eq
good_markers = refl

good_format : validate_test_format (some good_file) ≡ []
unfolding validate_test_format text_eq nat_eq
good_format = refl

bad_format : is_nil (validate_test_format (some bad_file)) ≡ false
unfolding validate_test_format text_eq nat_eq
bad_format = refl

bad_markers : is_nil (validate_marker_reasons (some bad_file)) ≡ false
unfolding validate_marker_reasons text_eq nat_eq
bad_markers = refl

-- A list that holds one large text twice.
abbrev large : Object
large =
    let big = object 2 600_000 Shape.text in
    object 1 80 (Shape.sequence (Elements.cons big (Elements.cons big Elements.nil)))

exceeds_size_limit_lem_example :
    exceeds_size_limit large ≡ ltb param_size_limit_bytes (full_size large []).0
exceeds_size_limit_lem_example = exceeds_size_limit_lem large

shared_once : exceeds_size_limit large ≡ false
unfolding exceeds_size_limit nat_eq deep_size
shared_once = refl

abbrev path : Text
path = codes "tests/a/test_a.py"

abbrev files : Files
files = record {
  parts = λ _. map codes ("tests" ∷ "a" ∷ "test_a.py" ∷ []);
  below = λ _.
      record {
        name = codes "test_a.py";
        stem = codes "test_a";
        parent = codes "a";
        parts = map codes ("tests" ∷ "a" ∷ "test_a.py" ∷ []);
      }
      ∷ [];
  tree = λ _. some bad_file;
  error_codes = some [];
}

abbrev items : List Item
items =
    record { nodeid = "x"; fspath = path; params = some (large ∷ []) }
    ∷ record { nodeid = "y"; fspath = path; params = none }
    ∷ []

exits_lem_example :
    exits files items
    ≡ not (
        placed_ok files items
        && error_codes_ok files
        && all (λ i. path_ok files i.fspath) items
        && all params_ok items)
exits_lem_example = exits_lem files items

abbrev suite : List String → ℕ → Suite String
suite cases failures = record {
  testcases = cases;
  attributes = ("tests", length cases) ∷ ("failures", failures) ∷ [];
  time = some 5;
}

abbrev suite_1 : Suite String
suite_1 = suite ("a" ∷ "b" ∷ []) 1

abbrev suite_2 : Suite String
suite_2 = suite ("c" ∷ []) 0

tests_1 : count_or_zero suite_1.attributes "tests" ≡ length suite_1.testcases
unfolding count_or_zero string_eq
tests_1 = refl

tests_2 : count_or_zero suite_2.attributes "tests" ≡ length suite_2.testcases
unfolding count_or_zero string_eq
tests_2 = refl

failures_summed : contains summed_attributes "failures" ≡ true
unfolding string_eq
failures_summed = refl

abbrev keyword_case : List BsonType → BsonTypeTestCase ℕ
keyword_case valid = record {
  id = "minimum";
  valid_types = valid;
  skip_rejection_types = null ∷ [];
  default_error_code = 14;
  error_code_overrides = [];
  valid_inputs = [];
}

abbrev keyword_cases : List (BsonTypeTestCase ℕ)
keyword_cases = keyword_case (int ∷ double ∷ []) ∷ keyword_case (string ∷ []) ∷ []

strings_once : ListedOnce string keyword_cases
unfolding bson_type_eq place bson_type_dec
strings_once = (omega arith, (omega arith, tt))

-- Elements are a byte for the value alone.
abbrev element : String → ℕ → Bytes
element _ v = v ∷ []

abbrev encode : String → ℕ → Bytes
encode k v = little_endian (length (element k v) + 5) ++ element k v ++ 0 ∷ []

abbrev twice : List (String × ℕ)
twice = ("a", 7) ∷ ("a", 8) ∷ []

two_small : length (concatenated encode element twice) + 5 < 2147483648
unfolding concatenated
two_small = omega arith

-- A class that checks the length and the last byte and keeps the bytes.
abbrev ends_in_zero : Bytes → Bool
ends_in_zero [] = false
ends_in_zero (b ∷ []) = b == 0
ends_in_zero (b ∷ c ∷ bs) = ends_in_zero (c ∷ bs)

ends_in_zero-append : (xs : Bytes) → ends_in_zero (xs ++ 0 ∷ []) ≡ true
unfolding nat_eq
ends_in_zero-append [] = refl
ends_in_zero-append (x ∷ []) = refl
ends_in_zero-append (x ∷ y ∷ xs) = ends_in_zero-append (y ∷ xs)

abbrev raw_document : Bytes → Option Bytes
raw_document bs =
    if declared_length bs == length bs && ltb (length bs) 2147483648 && ends_in_zero bs
    then some bs
    else none

takes_framed :
    (xs : Bytes)
    → length xs + 5 < 2147483648
    → (d : Bytes) × (raw_document (framed_by (length xs + 5) xs) ≡ some d)
      × (d ≡ framed_by (length xs + 5) xs)
takes_framed xs small =
    let n = length xs + 5 in
    let whole : length (framed_by n xs) ≡ n = omega (arith, length-framed_by n xs) in
    (
      framed_by n xs,
      rw
          (
            declared_length-framed_by n xs (omega arith),
            whole,
            ends_in_zero-append (little_endian n ++ xs),
          )
          (ground (arith, small)),
      refl,
    )

build_raw_bson_doc_lem_example :
    (d : Bytes) × (build_raw_bson_doc encode raw_document twice ≡ document d)
    × (d ≡ little_endian (length d) ++ concatenated encode element twice ++ 0 ∷ [])
    × (declared_length d ≡ length d)
build_raw_bson_doc_lem_example =
    build_raw_bson_doc_lem encode element raw_document (λ d. d) takes_framed (λ k v. refl) twice
      two_small

raw_run : build_raw_bson_doc encode raw_document twice ≡ document (7 ∷ 0 ∷ 0 ∷ 0 ∷ 7 ∷ 8 ∷ 0 ∷ [])
unfolding build_raw_bson_doc nat_eq declared_length
raw_run = refl
