-- ===== src/Assertions/Dispatch/Plain.antt =====
-- What `assertResult` makes of a dict without checks (framework/assertions.py).
use functional_tests.Base.{
  String, ◌≡◌, refl, ap, Bool, true, false, some, ◌||◌, ◌&&◌, [], if◌then◌else◌, Option, none, List,
}
use functional_tests.Bson.{
  Host, Value, dict, Items, Fields, end, field, list, nil, cons, tuple, atom,
}
use functional_tests.Assertions.{
  Result, response, exception, first_batch, Outcome, Options, assert_success,
}
use functional_tests.Assertions.Paths.{Part}
use functional_tests.Checks.{length_items}
use functional_tests.Assertions.Properties.{
  Specs, Run, failures, raised, full_path, and_also, outcome_of, repeat, on_first_batch, run_list,
  run_checks, run_docs, broadcast, assert_properties,
}
use functional_tests.Assertions.Dispatch.{
  Entries, no_entries, of_value, entries, is_dict, has_property_spec, fields_of, run_value,
  run_fields, run_entries, run_each, on_batch, assert_dict, assert_entries, assert_result,
  of_checks, of_group,
}

abbrev unless_hollow : Bool → Run
unless_hollow b = if b then failures [] else raised

both_hollow : (b c : Bool) → and_also (unless_hollow b) (unless_hollow c) ≡ unless_hollow (b && c)
both_hollow true true = refl
both_hollow true false = refl
both_hollow false c = refl

hollow_outcome :
    (b : Bool)
    → outcome_of (and_also (unless_hollow b) (failures []))
      ≡ (if b then Outcome.passed else Outcome.broken)
hollow_outcome true = refl
hollow_outcome false = refl

module _ {A : Type 0} where
  -- A dict of values without checks.
  abbrev pub plain_entries : Fields A → Entries A
  plain_entries end = no_entries
  plain_entries (field k v fs) = of_value k v (plain_entries fs)

  abbrev pub holds_dict : Fields A → Bool
  holds_dict end = false
  holds_dict (field _ v fs) = is_dict v || holds_dict fs

  has_property_spec-plain_entries :
      (fs : Fields A) → has_property_spec (plain_entries fs) ≡ holds_dict fs
  unfolding has_property_spec
  has_property_spec-plain_entries end = refl
  has_property_spec-plain_entries (field k v fs) =
      ap (λ b. is_dict v || b) (has_property_spec-plain_entries fs)

  fields_of-plain_entries : (fs : Fields A) → fields_of (plain_entries fs) ≡ fs
  unfolding fields_of
  fields_of-plain_entries end = refl
  fields_of-plain_entries (field k v fs) = ap (λ gs. field k v gs) (fields_of-plain_entries fs)

  -- Nothing stands in it, at any depth, but empty lists and dicts of such.
  abbrev mutual
    pub is_hollow : Value A → Bool
    is_hollow (dict fs) = are_hollow fs
    is_hollow (list nil) = true
    is_hollow (list (cons _ _)) = false
    is_hollow (tuple _) = false
    is_hollow (atom _) = false

    pub are_hollow : Fields A → Bool
    are_hollow end = true
    are_hollow (field _ v fs) = is_hollow v && are_hollow fs

  mutual
    unfolding run_value run_fields

    run_value_lem : (v : Value A) → run_value v ≡ unless_hollow (is_hollow v)
    run_value_lem (dict fs) = run_fields_lem fs
    run_value_lem (list nil) = refl
    run_value_lem (list (cons _ _)) = refl
    run_value_lem (tuple _) = refl
    run_value_lem (atom _) = refl

    run_fields_lem : (fs : Fields A) → run_fields fs ≡ unless_hollow (are_hollow fs)
    run_fields_lem end = refl
    run_fields_lem (field k v fs) =
        rw (run_value_lem v, run_fields_lem fs) (both_hollow (is_hollow v) (are_hollow fs))

  -- A dict of checks, as an expected dict.
  abbrev pub entries_of : Specs A → Entries A
  entries_of Specs.end = no_entries
  entries_of (Specs.checks path cs s) = of_checks path cs (entries_of s)
  entries_of (Specs.group path inner s) = of_group path inner (entries_of s)

  module _ (H : Host A) (le lt : Value A → Value A → Option Bool) (parts : String → List Part)
      (sorted : Items A → Items A) where
    -- A dict of values without checks, none of which is a dict, is compared as a value.
    assert_result_flat :
        (o : Options A) (r : Result A) (fs : Fields A)
        → holds_dict fs ≡ false
        → assert_result H le lt parts sorted none o r (entries (plain_entries fs))
          ≡ assert_success H sorted o r (dict fs)
    unfolding assert_result assert_entries
    assert_result_flat o r fs flat =
        rw (has_property_spec-plain_entries fs, flat, fields_of-plain_entries fs) refl

    run_entries-plain_entries :
        (doc : Value A) (fs : Fields A)
        → run_entries H le lt parts sorted doc (plain_entries fs) ≡ run_fields fs
    unfolding run_entries run_fields
    run_entries-plain_entries doc end = refl
    run_entries-plain_entries doc (field k v fs) =
        ap (and_also (run_value v)) (run_entries-plain_entries doc fs)

    -- Without an error code, a raw response is never compared with a dict of values without checks that
    -- has a dict among them. If nothing stands in the expected dict, at any depth, but empty lists and
    -- dicts of such, `assertResult` accepts every raw response; else it accepts none, not even an equal
    -- one, and ends by an exception, as it looks for a check.
    pub assert_result_nested :
        (o : Options A) (v : Value A) (fs : Fields A)
        → holds_dict fs ≡ true
        → o.raw_res ≡ true
        → assert_result H le lt parts sorted none o (response v) (entries (plain_entries fs))
          ≡ (if are_hollow fs then Outcome.passed else Outcome.broken)
    unfolding assert_result assert_entries assert_dict run_each
    assert_result_nested o v fs nested raw =
        rw
          (
            has_property_spec-plain_entries fs,
            nested,
            raw,
            run_entries-plain_entries v fs,
            run_fields_lem fs,
          )
          (hollow_outcome (are_hollow fs))

    run_entries-entries_of :
        (doc : Value A) (s : Specs A)
        → run_entries H le lt parts sorted doc (entries_of s) ≡ run_checks H le lt parts doc s ""
    unfolding run_entries run_checks
    run_entries-entries_of doc Specs.end = refl
    run_entries-entries_of doc (Specs.checks path cs s) =
        ap (and_also (run_list H le lt parts _ _ cs)) (run_entries-entries_of doc s)
    run_entries-entries_of doc (Specs.group path inner s) =
        ap (and_also (run_checks H le lt parts doc inner (full_path "" path)))
          (run_entries-entries_of doc s)

    run_each-run_docs :
        (docs : Items A) (s : Specs A)
        → run_each H le lt parts sorted docs (entries_of s)
          ≡ run_docs H le lt parts docs (repeat (length_items docs) s)
    unfolding run_each run_docs
    run_each-run_docs nil s = refl
    run_each-run_docs (cons doc docs) s =
        rw (run_entries-entries_of doc s, run_each-run_docs docs s) refl

    on_batch-on_first_batch :
        (b : Option (Value A)) (s : Specs A)
        → on_batch H le lt parts sorted b (entries_of s)
          ≡ on_first_batch H le lt parts b (broadcast s)
    on_batch-on_first_batch (some (list (cons doc docs))) s =
        ap outcome_of (run_each-run_docs (cons doc docs) s)
    on_batch-on_first_batch _ s = refl

    pub assert_result-assert_properties :
        (o : Options A) (r : Result A) (s : Specs A)
        → has_property_spec (entries_of s) ≡ true
        → assert_result H le lt parts sorted none o r (entries (entries_of s))
          ≡ assert_properties H le lt parts o.raw_res r (broadcast s)
    unfolding assert_result assert_entries assert_dict assert_properties
    assert_result-assert_properties o (exception infra c m) s held = rw held refl
    assert_result-assert_properties o (response v) s held =
        rw (held, run_each-run_docs (cons v nil) s, on_batch-on_first_batch (first_batch v) s) refl
