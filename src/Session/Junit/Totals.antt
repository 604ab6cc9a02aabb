-- ===== src/Session/Junit/Totals.antt =====
-- The totals of a merged suite (`_merge_junit_xml` of conftest.py).
use functional_tests.Base.{
  ℕ, ◌+◌, String, ◌≡◌, refl, true, some, List, [], ◌∷◌, arith, length, length-append, string_eq,
  contains, if◌then◌else◌,
}
use functional_tests.Base.Dict.{Dict, insert}
use functional_tests.Analyzer.Reconcile.{count_or_zero}
use functional_tests.Session.Merge.Sums.{count-insert, Distinct}
use functional_tests.Session.Junit.{
  Suite, summed_attributes, sum_attributes, merge_suites, merge_junit_xml,
}

count-sum_attributes :
    (ks : List String) (a b : Dict String ℕ) (j : String)
    → Distinct ks
    → count_or_zero (sum_attributes ks a b) j
      ≡ count_or_zero a j + (if contains ks j then count_or_zero b j else 0)
unfolding sum_attributes
count-sum_attributes [] a b j _ = omega arith
count-sum_attributes (k ∷ ks) a b j (fresh, distinct) = ground (
  arith,
  count-sum_attributes ks (insert k (count_or_zero a k + count_or_zero b k) a) b j distinct,
  count-insert j k (count_or_zero a k + count_or_zero b k) a,
)

attributes-Distinct : Distinct summed_attributes
unfolding string_eq
attributes-Distinct = (refl, (refl, (refl, (refl, tt))))

tests_summed : contains summed_attributes "tests" ≡ true
unfolding string_eq
tests_summed = refl

count-merge_suites :
    {T : Type 0} (s t : Suite T) (k : String)
    → contains summed_attributes k ≡ true
    → count_or_zero ((merge_suites s t).attributes) k
      ≡ count_or_zero s.attributes k + count_or_zero t.attributes k
count-merge_suites s t k known =
    ground (
      arith,
      count-sum_attributes summed_attributes s.attributes t.attributes k attributes-Distinct,
    )

-- If `tests` is the number of test cases in each of two suites, then it is in the merged one; and
-- each of the four summed attributes is the sum of those of the two suites.
merge_junit_xml_lem :
    {T : Type 0} (s t : Suite T) (k : String)
    → count_or_zero s.attributes "tests" ≡ length s.testcases
    → count_or_zero t.attributes "tests" ≡ length t.testcases
    → contains summed_attributes k ≡ true
    → (u : Suite T) × (merge_junit_xml (some s) (some t) ≡ some u)
      × (count_or_zero u.attributes "tests" ≡ length u.testcases)
      × (count_or_zero u.attributes k ≡ count_or_zero s.attributes k + count_or_zero t.attributes k)
unfolding merge_junit_xml
merge_junit_xml_lem s t k hs ht known = (
  merge_suites s t,
  refl,
  omega (arith, length-append s.testcases t.testcases, count-merge_suites s t "tests" tests_summed),
  count-merge_suites s t k known,
)
