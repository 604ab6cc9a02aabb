-- ===== src/Tests/Framework.antt =====
-- Assertions, property checks, the validator of error codes and target collections on small data.
use functional_tests.Base.{
  some, ℕ, String, ◌≡◌, ◌≢◌, refl, ◌↔◌, true, false, none, List, [], ◌∷◌, nat_eq, string_eq,
  contains, any,
}
use functional_tests.Bson.{
  atom, dict, Items, Fields, end, field, field_keys, get, atoms_equal, strict_equal, class_eq,
  Class-discrete,
}
use functional_tests.Assertions.{
  response, Outcome, gossip_fields, assert_success, assert_success_partial,
  strip_replication_gossip, strip_fields, extract_partial,
}
use functional_tests.Assertions.Accepts.{assert_success_partial_keys}
use functional_tests.ErrorCodes.{
  Statement, int_assign, other, codes_of, validate_error_codes_sorted,
}
use functional_tests.ErrorCodes.Order.{Increasing, validate_error_codes_sorted_nil}
use functional_tests.Tests.Bson.{Atom, integer, host, doc}

abbrev code : ℕ → ℕ → Statement
code value line = int_assign (record { name = "X_ERROR"; value = value; line = line })

abbrev statements : List Statement
statements = other ∷ code 2 1 ∷ code 9 2 ∷ other ∷ code 11 4 ∷ []

validate_error_codes_sorted_nil_example :
    (validate_error_codes_sorted (some statements) ≡ []) ↔ Increasing (codes_of statements)
validate_error_codes_sorted_nil_example = validate_error_codes_sorted_nil statements

abbrev sorted : Items Atom → Items Atom
sorted xs = xs

abbrev expected : Fields Atom
expected = field "ok" (atom (integer 1)) end

abbrev reply : Fields Atom
reply = field "n" (atom (integer 3)) expected

partial_passes :
    assert_success_partial host sorted (response (dict reply)) (dict expected) ≡ Outcome.passed
unfolding assert_success_partial assert_success strip_replication_gossip strip_fields
    extract_partial strict_equal atoms_equal class_eq Class-discrete nat_eq string_eq get
partial_passes = refl

assert_success_partial_keys_example :
    (a : Fields Atom) × (dict reply ≡ dict a)
    × ((k : String)
        → contains (field_keys expected) k ≡ true
        → contains gossip_fields k ≡ false
        → get k a ≢ none)
assert_success_partial_keys_example =
    assert_success_partial_keys host sorted (dict reply) expected partial_passes

no_gossip : any (contains gossip_fields) (field_keys doc) ≡ false
unfolding string_eq
no_gossip = refl

fresh_key : contains (field_keys doc) "extra" ≡ false
unfolding string_eq
fresh_key = refl
