-- ===== src/Assertions.antt =====
-- The assertion helpers (framework/assertions.py), on expected values that `materialize` has
-- resolved. Messages are reduced to their tags.
pub mod Compare
pub mod Partial
pub mod Paths
pub mod Accepts
pub mod Properties
pub mod Nan
pub mod Dispatch
use functional_tests.Base.{
  ℕ, zero, suc, String, Bool, true, false, not, ◌&&◌, Option, none, some, List, [], ◌∷◌, ◌==◌,
  string_eq, contains, if◌then◌else◌,
}
use functional_tests.Bson.{
  Host, Value, atom, list, tuple, dict, Items, nil, cons, Fields, end, field, field_keys, get,
  strict_equal,
}

-- What `execute_command` gives: a response, or an exception with whether its type is one of
-- `INFRA_EXCEPTION_TYPES`, its code and its message.
pub data Result (A : Type 0) : Type 0 where
  response : Value A → Result A
  exception : Bool → A → A → Result A

-- The assertion holds, raises `AssertionError` with a tag, raises the infrastructure exception
-- again, or ends by another exception, such as a `KeyError`.
pub data Outcome : Type 0 where
  passed reraised broken : Outcome
  assertion_error : String → Outcome

-- `_REPLICATION_GOSSIP_FIELDS`
abbrev pub gossip_fields : List String
gossip_fields = "$clusterTime" ∷ "operationTime" ∷ "electionId" ∷ "opTime" ∷ []

module _ {A : Type 0} where
  unfoldable pub strip_fields : Fields A → Fields A
  strip_fields end = end
  strip_fields (field k v fs) =
      let rest = strip_fields fs in if contains gossip_fields k then rest else field k v rest

  unfoldable pub strip_replication_gossip : Value A → Value A
  unfolding strip_fields
  strip_replication_gossip (dict fs) = dict (strip_fields fs)
  strip_replication_gossip v = v

  unfoldable mutual
    pub extract_partial : Value A → Value A → Value A
    extract_partial (dict e) (dict a) = dict (extract_fields e a)
    extract_partial (list es) (list xs) = list (extract_items es xs)
    extract_partial _ v = v

    -- The comprehension over the keys of `expected` that `actual` has.
    pub extract_fields : Fields A → Fields A → Fields A
    extract_fields end a = end
    extract_fields (field k v fs) a = elim (get k a) [
      | none ↦ extract_fields fs a
      | some w ↦ field k (extract_partial v w) (extract_fields fs a)
    ]

    -- `zip` stops at the shorter list.
    pub extract_items : Items A → Items A → Items A
    extract_items nil xs = nil
    extract_items (cons e es) nil = nil
    extract_items (cons e es) (cons x xs) = cons (extract_partial e x) (extract_items es xs)

  abbrev entry : String → Option (Value A) → Option (Value A)
  entry k none = none
  entry k (some (dict fs)) = get k fs
  entry k (some _) = none

  abbrev first_item : Option (Value A) → Option (Value A)
  first_item (some (list (cons x xs))) = some x
  first_item (some (tuple (cons x xs))) = some x
  first_item _ = none

  -- `result["cursor"]["firstBatch"]`
  unfoldable pub first_batch : Value A → Option (Value A)
  first_batch v = entry "firstBatch" (entry "cursor" (some v))

  abbrev pub code_and_msg : Value A → Value A → Value A
  code_and_msg c m = dict (field "code" c (field "msg" m end))

  abbrev both : Option (Value A) → Option (Value A) → Option (Value A)
  both (some c) (some m) = some (code_and_msg c m)
  both _ _ = none

  -- The code and the message of `result["writeErrors"][0]`.
  abbrev first_write_error : Value A → Option (Value A)
  first_write_error errors =
      let first = first_item (some errors) in both (entry "code" first) (entry "errmsg" first)

  abbrev pub has_key : String → Value A → Bool
  has_key k (dict fs) = contains (field_keys fs) k
  has_key k _ = false

-- The options of `assertSuccess`; no `transform` is the identity.
pub record Options (A : Type 0) : Type 0 where
  pub raw_res : Bool
  pub transform : Value A → Value A
  pub ignore_doc_order : Bool
  pub ignore_order_in : List String

-- The options of `assertSuccessPartial`.
abbrev pub partially : {A : Type 0} → Value A → Options A
partially expected = record {
  raw_res = true;
  transform = extract_partial expected;
  ignore_doc_order = false;
  ignore_order_in = [];
}

abbrev pub only_code : {A : Type 0} → A → Value A
only_code c = dict (field "code" (atom c) end)

module _ {A : Type 0} (H : Host A) (sorted : Items A → Items A) where
  -- `_sort_if_list`; `sorted` sorts by type name and `repr`.
  abbrev sort_if_list : Value A → Value A
  sort_if_list (list xs) = list (sorted xs)
  sort_if_list v = v

  unfoldable pub sort_named : List String → Fields A → Fields A
  sort_named names end = end
  sort_named names (field k v fs) =
      field k (if contains names k then sort_if_list v else v) (sort_named names fs)

  abbrev cons_doc : Fields A → Option (Items A) → Option (Items A)
  cons_doc fs none = none
  cons_doc fs (some docs) = some (cons (dict fs) docs)

  -- `none` where a document is no dict.
  unfoldable pub sort_docs : List String → Items A → Option (Items A)
  unfolding sort_named
  sort_docs names nil = some nil
  sort_docs names (cons (dict fs) docs) = cons_doc (sort_named names fs) (sort_docs names docs)
  sort_docs names (cons _ docs) = none

  abbrev as_list : Option (Items A) → Option (Value A)
  as_list none = none
  as_list (some xs) = some (list xs)

  unfoldable pub sort_fields : List String → Value A → Option (Value A)
  unfolding sort_docs
  sort_fields names (dict fs) = some (dict (sort_named names fs))
  sort_fields names (list docs) = as_list (sort_docs names docs)
  sort_fields names (tuple docs) = as_list (sort_docs names docs)
  sort_fields names (atom x) = none

  abbrev pub compare : String → Value A → Value A → Outcome
  compare tag actual expected =
      if strict_equal H actual expected then passed else assertion_error tag

  abbrev pub unordered : Bool → Value A → Value A
  unordered ignore v = if ignore then sort_if_list v else v

  abbrev pub compare_sorted : Bool → Option (Value A) → Option (Value A) → Outcome
  compare_sorted ignore (some actual) (some expected) =
      compare "RESULT_MISMATCH" (unordered ignore actual) (unordered ignore expected)
  compare_sorted ignore _ _ = broken

  abbrev pub reorder : List String → Value A → Option (Value A)
  reorder [] v = some v
  reorder (n ∷ ns) v = sort_fields (n ∷ ns) v

  abbrev pub compare_with : Options A → Value A → Value A → Outcome
  compare_with o actual expected =
      compare_sorted o.ignore_doc_order (reorder o.ignore_order_in (o.transform actual))
        (reorder o.ignore_order_in expected)

  abbrev on_batch : Options A → Option (Value A) → Value A → Outcome
  on_batch o none expected = broken
  on_batch o (some batch) expected = compare_with o batch expected

  unfoldable pub assert_success : Options A → Result A → Value A → Outcome
  assert_success o (exception infra c m) expected =
      if infra then reraised else assertion_error "UNEXPECTED_ERROR"
  assert_success o (response v) expected =
      if o.raw_res
      then compare_with o (strip_replication_gossip v) (strip_replication_gossip expected)
      else on_batch o (first_batch v) expected

  unfoldable pub assert_success_partial : Result A → Value A → Outcome
  unfolding assert_success
  assert_success_partial r expected = assert_success (partially expected) r expected

  -- The comparison at the end of `assertFailure`, with the test of the format of `expected` that
  -- is made where no transform is given.
  abbrev pub compare_error : Option (Value A → Value A) → Option (Value A) → Value A → Outcome
  compare_error transform none expected = broken
  compare_error none (some actual) expected =
      if has_key "code" expected && has_key "msg" expected
      then compare "ERROR_MISMATCH" actual expected
      else assertion_error "TEST_EXCEPTION"
  compare_error (some f) (some actual) expected = compare "ERROR_MISMATCH" (f actual) expected

  abbrev pub on_write_errors : Option (Value A → Value A) → Option (Value A) → Value A → Outcome
  on_write_errors transform none expected = assertion_error "UNEXPECTED_SUCCESS"
  on_write_errors transform (some errors) expected =
      compare_error transform (first_write_error errors) expected

  unfoldable pub assert_failure : Option (Value A → Value A) → Result A → Value A → Outcome
  assert_failure transform (response v) expected =
      on_write_errors transform (entry "writeErrors" (some v)) expected
  assert_failure transform (exception infra c m) expected =
      if infra
      then reraised
      else compare_error transform (some (code_and_msg (atom c) (atom m))) expected

  unfoldable pub assert_failure_code : Result A → A → Outcome
  unfolding assert_failure
  assert_failure_code r c = assert_failure (some (extract_partial (only_code c))) r (only_code c)
