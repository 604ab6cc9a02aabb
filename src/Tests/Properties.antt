-- ===== src/Tests/Properties.antt =====
-- `assertProperties` and `assertResult` on a small response.
use functional_tests.Base.{
  ◌≡◌, ◌≢◌, refl, ◌↔◌, true, false, none, some, if◌then◌else◌, [], ◌∷◌, string_eq, nat_eq,
}
use functional_tests.Bson.{Value, atom, list, dict, Items, Fields, nil, cons, end, field, get}
use functional_tests.Checks.{exists, eq}
use functional_tests.Assertions.{response, Options, Outcome, first_batch}
use functional_tests.Assertions.Properties.{Specs, checks, group, broadcast, assert_properties}
use functional_tests.Assertions.Properties.Satisfied.{EveryPasses, assert_properties_broadcast}
use functional_tests.Assertions.Dispatch.{entries, has_property_spec, assert_result}
use functional_tests.Assertions.Dispatch.Plain.{
  plain_entries, are_hollow, entries_of, assert_result_nested, assert_result-assert_properties,
}
use functional_tests.Tests.Bson.{Atom, integer, host, doc}
use functional_tests.Tests.Paths.{no_order, parts}

abbrev specs : Specs Atom
specs =
    checks "a" (exists ∷ [])
      (group "b" (checks "c" (eq (atom (integer 1)) ∷ []) Specs.end) Specs.end)

abbrev docs : Items Atom
docs = cons (dict doc) nil

abbrev reply : Value Atom
reply = dict (field "cursor" (dict (field "firstBatch" (list docs) end)) end)

reply_batch : first_batch reply ≡ some (list docs)
unfolding first_batch get string_eq
reply_batch = refl

assert_properties_broadcast_example :
    (assert_properties host no_order no_order parts false (response reply) (broadcast specs)
      ≡ Outcome.passed)
    ↔ ((docs ≢ nil) × EveryPasses host no_order no_order parts docs specs)
assert_properties_broadcast_example =
    assert_properties_broadcast host no_order no_order parts reply docs specs reply_batch

abbrev options : Options Atom
options = record {
  raw_res = true;
  transform = λ v. v;
  ignore_doc_order = false;
  ignore_order_in = [];
}

abbrev same_order : Items Atom → Items Atom
same_order xs = xs

-- `{"a": {"b": 1}}`, as the response and as what is expected of it.
abbrev nested : Fields Atom
nested = field "a" (dict (field "b" (atom (integer 1)) end)) end

assert_result_nested_example :
    assert_result host no_order no_order parts same_order none options
      (response (dict nested))
      (entries (plain_entries nested))
    ≡ (if are_hollow nested then Outcome.passed else Outcome.broken)
assert_result_nested_example =
    assert_result_nested host no_order no_order parts same_order options (dict nested) nested refl
      refl

-- An equal response is refused.
equal_refused :
    assert_result host no_order no_order parts same_order none options
      (response (dict nested))
      (entries (plain_entries nested))
    ≡ Outcome.broken
equal_refused = assert_result_nested_example

specs_held : has_property_spec (entries_of specs) ≡ true
unfolding has_property_spec
specs_held = refl

assert_result-assert_properties_example :
    assert_result host no_order no_order parts same_order none options
      (response reply)
      (entries (entries_of specs))
    ≡ assert_properties host no_order no_order parts true (response reply) (broadcast specs)
assert_result-assert_properties_example =
    assert_result-assert_properties host no_order no_order parts same_order options (response reply)
      specs specs_held
