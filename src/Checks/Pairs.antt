-- ===== src/Checks/Pairs.antt =====
-- Where `Ne` is the negation of `Eq`, and where it is not (framework/property_checks.py).
use functional_tests.Base.{◌≡◌, ◌↔◌, Bool, false, Option, some, arith, nat_eq, string_eq}
use functional_tests.Bson.{class_eq, Host, Value}
use functional_tests.Checks.{eq, ne, passed, failed, cross_type, check_present, check}

module _ {A : Type 0} (H : Host A) (le lt : Value A → Value A → Option Bool) where
  -- On a field that is there, `Ne` passes exactly where `Eq` fails and the values are no numbers
  -- of two classes.
  ne-eq :
      (v w : Value A)
      → (check H le lt (ne w) (some v) ≡ passed)
        ↔ ((check H le lt (eq w) (some v) ≡ failed) × (cross_type H v w ≡ false))
  unfolding check_present
  ne-eq v w = ground arith
