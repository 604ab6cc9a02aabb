-- ===== src/Assertions/Compare.antt =====
-- Stripped fields and error codes (assertions.py).
use functional_tests.Base.{
  String, ◌≡◌, refl, ◌↔◌, Bool, true, false, ◌&&◌, none, arith, string_eq, contains, if◌then◌else◌,
}
use functional_tests.Bson.{Host, atom, Items, Fields, end, field, get, strict_equal, atoms_equal}
use functional_tests.Assertions.{
  exception, passed, gossip_fields, strip_fields, extract_partial, code_and_msg,
  assert_failure_code, only_code,
}

module _ {A : Type 0} where
  -- Stripping removes the gossip fields and nothing else.
  pub get-strip_fields :
      (k : String) (fs : Fields A)
      → get k (strip_fields fs) ≡ (if contains gossip_fields k then none else get k fs)
  unfolding get strip_fields
  get-strip_fields k end = ground arith
  get-strip_fields k (field j v fs) = ground (arith, get-strip_fields k fs)

module _ {A : Type 0} (H : Host A) (sorted : Items A → Items A) where
  compare_codes :
      (c d : A) → strict_equal H (only_code c) (only_code d) ≡ (atoms_equal H c d && true)
  unfolding strict_equal get string_eq
  compare_codes c d = refl

  partial_code :
      (c m d : A) → extract_partial (only_code d) (code_and_msg (atom c) (atom m)) ≡ only_code c
  unfolding extract_partial get string_eq
  partial_code c m d = refl

  -- `assertFailureCode` passes for an exception exactly if it is no infrastructure exception and
  -- its code is strictly equal to the expected one.
  assert_failure_code_exception :
      (infra : Bool) (c m expected : A)
      → (assert_failure_code H sorted (exception infra c m) expected ≡ passed)
        ↔ ((infra ≡ false) × (atoms_equal H c expected ≡ true))
  unfolding assert_failure_code
  assert_failure_code_exception infra c m expected =
      rw (partial_code c m expected, compare_codes c expected) (ground arith)
