-- ===== src/TestCases.antt =====
-- Test cases and the parameters made of them (framework/test_case.py, framework/parametrize.py), over
-- values and marks of any types.
use functional_tests.Base.{ℕ, Option, none, some, List, map}
use functional_tests.Base.Text.{Text}

pub record BaseTestCase (V M : Type 0) : Type 0 where
  pub id : Text
  pub expected : Option V
  pub error_code : Option ℕ
  pub msg : Option Text
  pub marks : List M

-- What `pytest.param` is called with.
pub record ParameterSet (V M : Type 0) : Type 0 where
  pub value : BaseTestCase V M
  pub id : Text
  pub marks : List M

module _ {V M : Type 0} where
  -- A new case, or `none` for the `ValueError` of `__post_init__`.
  abbrev with_msg : BaseTestCase V M → Option Text → Option (BaseTestCase V M)
  with_msg t none = none
  with_msg t (some msg) = some t

  abbrev pub post_init : BaseTestCase V M → Option (BaseTestCase V M)
  post_init t = with_msg t t.msg

  abbrev pub pytest_params : List (BaseTestCase V M) → List (ParameterSet V M)
  pytest_params tests =
      map (λ (t : BaseTestCase V M). record { value = t; id = t.id; marks = t.marks }) tests
