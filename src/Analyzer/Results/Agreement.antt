-- ===== src/Analyzer/Results/Agreement.antt =====
-- The feature tree against the sections of the report (analyzer.py, report_content.py).
use functional_tests.Base.{
  ◌+◌, ◌≡◌, refl, Bool, false, List, [], ◌∷◌, map, arith, length, count, select,
}
use functional_tests.Base.Dict.{Dict}
use functional_tests.Base.Text.{Text}
use functional_tests.Analyzer.Feature.{Key, failed, error, deselected, same_key}
use functional_tests.Analyzer.Feature.Counts.{
  count_at, leads_to, counts_test, counts_deselected, count_at-group_by_feature,
}
use functional_tests.Analyzer.Results.{TestDetail, Report, detail, named, analyze_results}
use functional_tests.Content.{wants_attention, needs_attention}

bad_counted :
    (ts : List TestDetail)
    → count (counts_test failed []) (map named ts) + count (counts_test error []) (map named ts)
      ≡ length (select wants_attention ts)
unfolding leads_to same_key
bad_counted [] = refl
bad_counted (t ∷ ts) = ground (arith, bad_counted ts)

none_deselected_as :
    (k : Key) (dropped : Dict Text (Dict Text Bool))
    → same_key k deselected ≡ false
    → count (counts_deselected k []) dropped ≡ 0
unfolding leads_to
none_deselected_as k [] h = refl
none_deselected_as k ((nodeid, unmet) ∷ dropped) h = ground (arith, none_deselected_as k dropped h)

-- The failed and errored tests at the root of the feature tree are those that need attention.
count_at-needs_attention :
    (r : Report) (dropped : Dict Text (Dict Text Bool))
    → let a = analyze_results r dropped in
      count_at failed [] a.by_feature + count_at error [] a.by_feature ≡ length (needs_attention a)
unfolding analyze_results needs_attention same_key
count_at-needs_attention r dropped = omega (
  arith,
  count_at-group_by_feature failed [] (map named (map detail r.tests)) dropped,
  count_at-group_by_feature error [] (map named (map detail r.tests)) dropped,
  none_deselected_as failed dropped refl,
  none_deselected_as error dropped refl,
  bad_counted (map detail r.tests),
)
