-- ===== src/Session/Merge.antt =====
-- `_merge_json_reports` of conftest.py.
pub mod Sums
pub mod Verdict
pub mod Analysis
use functional_tests.Base.{
  ℕ, ◌+◌, String, Bool, true, false, Option, none, some, List, [], ◌∷◌, ◌++◌, ltb, ◌==◌, string_eq,
  if◌then◌else◌,
}
use functional_tests.Base.Dict.{Dict, lookup, insert}
use functional_tests.Analyzer.Reconcile.{count_or_zero}

abbrev pub Summary : Type 0
Summary = Dict String ℕ

-- `pop(key, None)`
unfoldable pub pop : String → Summary → Summary
pop k [] = []
pop k ((j, n) ∷ d) = let rest = pop k d in if k == j then rest else (j, n) ∷ rest

-- A report, with tests of any type. A duration is a whole number of some unit.
pub record JsonReport (T : Type 0) : Type 0 where
  pub tests : List T
  pub duration : ℕ
  pub summary : Summary

-- The keys that are summed.
unfoldable pub summed_keys : List String
summed_keys = "passed" ∷ "failed" ∷ "error" ∷ "skipped" ∷ "xfailed" ∷ "xpassed" ∷ "total" ∷ []

abbrev add_count : String → Summary → Option ℕ → Summary
add_count key p1 none = p1
add_count key p1 (some n) = insert key (count_or_zero p1 key + n) p1

unfoldable pub sum_keys : List String → Summary → Summary → Summary
sum_keys [] p1 p2 = p1
sum_keys (key ∷ keys) p1 p2 = sum_keys keys (add_count key p1 (lookup key p2)) p2

-- Phase 2 collects everything, so its count wins where it has one.
unfoldable pub set_collected : Summary → Summary → Summary
set_collected p1 p2 =
    let collected = count_or_zero p2 "collected" in
    if ltb 0 collected then insert "collected" collected p1 else p1

unfoldable pub merge_summaries : Summary → Summary → Summary
merge_summaries p1 p2 = pop "deselected" (set_collected (sum_keys summed_keys p1 p2) p2)

unfoldable pub merge_json_reports : {T : Type 0} → JsonReport T → JsonReport T → JsonReport T
merge_json_reports p1 p2 = record {
  tests = p1.tests ++ p2.tests;
  duration = p1.duration + p2.duration;
  summary = merge_summaries p1.summary p2.summary;
}
