-- ===== src/Session/Junit.antt =====
-- `_merge_junit_xml` of conftest.py.
pub mod Totals
use functional_tests.Base.{ℕ, ◌+◌, String, Option, none, some, List, [], ◌∷◌, ◌++◌, ◌==◌, string_eq}
use functional_tests.Base.Dict.{Dict, lookup, insert}
use functional_tests.Analyzer.Reconcile.{count_or_zero}

-- A `testsuite`, with test cases of any type. A time is a whole number of some unit.
pub record Suite (T : Type 0) : Type 0 where
  pub testcases : List T
  pub attributes : Dict String ℕ
  pub time : Option ℕ

abbrev pub summed_attributes : List String
summed_attributes = "tests" ∷ "errors" ∷ "failures" ∷ "skipped" ∷ []

unfoldable pub sum_attributes : List String → Dict String ℕ → Dict String ℕ → Dict String ℕ
sum_attributes [] a b = a
sum_attributes (k ∷ ks) a b =
    sum_attributes ks (insert k (count_or_zero a k + count_or_zero b k) a) b

abbrev time_or_zero : Option ℕ → ℕ
time_or_zero none = 0
time_or_zero (some t) = t

abbrev pub merge_suites : {T : Type 0} → Suite T → Suite T → Suite T
merge_suites s t = record {
  testcases = s.testcases ++ t.testcases;
  attributes = sum_attributes summed_attributes s.attributes t.attributes;
  time = some (time_or_zero s.time + time_or_zero t.time);
}

-- `none` is a file without a `testsuite`; the result is what the first file holds afterwards.
unfoldable pub merge_junit_xml :
    {T : Type 0} → Option (Suite T) → Option (Suite T) → Option (Suite T)
unfolding sum_attributes
merge_junit_xml none q = none
merge_junit_xml (some s) none = some s
merge_junit_xml (some s) (some t) = some (merge_suites s t)
