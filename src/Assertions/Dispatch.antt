-- ===== src/Assertions/Dispatch.antt =====
-- The choice of an assertion, and the assertions on the kind of a result (`assertResult`,
-- `assertNotError` and `assertExceptionType` of framework/assertions.py).
pub mod Plain
use functional_tests.Base.{
  ℕ, String, Bool, true, false, not, ◌&&◌, ◌||◌, Option, none, some, List, [], ◌∷◌, if◌then◌else◌,
}
use functional_tests.Bson.{
  Host, Value, atom, list, tuple, dict, Items, nil, cons, Fields, end, field,
}
use functional_tests.Checks.{Check}
use functional_tests.Assertions.{
  Result, response, exception, Outcome, Options, first_batch, assert_success, assert_failure_code,
}
use functional_tests.Assertions.Paths.{Part}
use functional_tests.Assertions.Properties.{
  Specs, Run, failures, raised, full_path, and_also, outcome_of, run_list, walk, run_checks,
  Expected, per_doc, assert_properties,
}

-- The entries of an expected dict: a check or a list of checks, a dict of checks, or any other value.
pub data Entries (A : Type 0) : Type 0 where
  no_entries : Entries A
  of_checks : String → List (Check A) → Entries A → Entries A
  of_group : String → Specs A → Entries A → Entries A
  of_value : String → Value A → Entries A → Entries A

-- A dict, a `PerDoc`, or a value that is no dict.
pub data Expectation (A : Type 0) : Type 0 where
  entries : Entries A → Expectation A
  each : List (Specs A) → Expectation A
  value : Value A → Expectation A

module _ {A : Type 0} where
  abbrev pub is_dict : Value A → Bool
  is_dict (dict _) = true
  is_dict _ = false

  -- `any(_is_property_spec(v) for v in expected.values())`
  unfoldable pub has_property_spec : Entries A → Bool
  has_property_spec no_entries = false
  has_property_spec (of_checks _ [] es) = has_property_spec es
  has_property_spec (of_checks _ (c ∷ cs) es) = true
  has_property_spec (of_group _ _ es) = true
  has_property_spec (of_value _ v es) = is_dict v || has_property_spec es

  -- The dict, if it has no property specs. An empty list of checks is an empty list.
  unfoldable pub fields_of : Entries A → Fields A
  fields_of no_entries = end
  fields_of (of_checks k _ es) = field k (list nil) (fields_of es)
  fields_of (of_group k _ es) = field k (dict end) (fields_of es)
  fields_of (of_value k v es) = field k v (fields_of es)

  -- `_run_checks` on values: those of a dict are looked at in turn, an empty list has nothing to run,
  -- and any other value, or its first element, has no `check`.
  unfoldable mutual
    pub run_value : Value A → Run
    run_value (dict fs) = run_fields fs
    run_value (list nil) = failures []
    run_value (list (cons _ _)) = raised
    run_value (tuple _) = raised
    run_value (atom _) = raised

    pub run_fields : Fields A → Run
    run_fields end = failures []
    run_fields (field _ v fs) = and_also (run_value v) (run_fields fs)

  module _ (H : Host A) (le lt : Value A → Value A → Option Bool) (parts : String → List Part)
      (sorted : Items A → Items A) where
    -- `_run_checks` on a document and the expected dict.
    unfoldable pub run_entries : Value A → Entries A → Run
    unfolding run_value
    run_entries doc no_entries = failures []
    run_entries doc (of_checks path cs es) =
        let full = full_path "" path in
        and_also (run_list H le lt parts (walk H le lt parts doc full) full cs) (run_entries doc es)
    run_entries doc (of_group path s es) =
        and_also (run_checks H le lt parts doc s (full_path "" path)) (run_entries doc es)
    run_entries doc (of_value path v es) = and_also (run_value v) (run_entries doc es)

    -- The loop over the documents, of which each is held against the whole dict.
    unfoldable pub run_each : Items A → Entries A → Run
    unfolding run_entries
    run_each nil es = failures []
    run_each (cons doc docs) es = and_also (run_entries doc es) (run_each docs es)

    abbrev pub on_batch : Option (Value A) → Entries A → Outcome
    on_batch (some (list nil)) es = Outcome.assertion_error "NO_DOCUMENTS"
    on_batch (some (list (cons doc docs))) es = outcome_of (run_each (cons doc docs) es)
    on_batch _ es = Outcome.broken

    -- `assertProperties` with a dict that holds checks, or values that have none.
    unfoldable pub assert_dict : Bool → Result A → Entries A → Outcome
    unfolding run_each
    assert_dict raw_res (exception infra c m) es =
        if infra then Outcome.reraised else Outcome.assertion_error "UNEXPECTED_ERROR"
    assert_dict raw_res (response v) es =
        if raw_res then outcome_of (run_each (cons v nil) es) else on_batch (first_batch v) es

    unfoldable pub assert_entries : Options A → Result A → Entries A → Outcome
    unfolding has_property_spec assert_dict fields_of
    assert_entries o r es =
        if has_property_spec es
        then assert_dict o.raw_res r es
        else assert_success H sorted o r (dict (fields_of es))

    -- The options have no transform.
    unfoldable pub assert_result : Option A → Options A → Result A → Expectation A → Outcome
    unfolding assert_entries
    assert_result (some code) o r expected = assert_failure_code H sorted r code
    assert_result none o r (each specs) =
        assert_properties H le lt parts o.raw_res r (per_doc specs)
    assert_result none o r (entries es) = assert_entries o r es
    assert_result none o r (value v) = assert_success H sorted o r v

  unfoldable pub assert_not_error : Result A → Outcome
  assert_not_error (response _) = Outcome.passed
  assert_not_error (exception _ _ _) = Outcome.assertion_error "Expected success"

  -- Whether the result is an instance of the type is a parameter.
  unfoldable pub assert_exception_type : (Result A → Bool) → Result A → Outcome
  assert_exception_type is_expected r =
      if is_expected r then Outcome.passed else Outcome.assertion_error "EXCEPTION_TYPE_MISMATCH"
