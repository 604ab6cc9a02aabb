-- ===== src/Session/Merge/Analysis.antt =====
-- The analysis of the merged report against those of the two phases.
use functional_tests.Base.{◌+◌, ◌≡◌, refl, Bool, List, [], ◌∷◌, ◌++◌, map, arith, count, select}
use functional_tests.Base.Dict.{Dict}
use functional_tests.Base.Text.{Text}
use functional_tests.Analyzer.Report.{TestEntry}
use functional_tests.Analyzer.Feature.{Key}
use functional_tests.Analyzer.Feature.Counts.{count_at, counts_test, count_at-group_by_feature}
use functional_tests.Analyzer.Results.{Analysis, detail, named, analyze_results}
use functional_tests.Content.{wants_attention, needs_attention}
use functional_tests.Session.Merge.{JsonReport, merge_json_reports}

-- The analyzer reads the summary and the tests of a report.
abbrev pub analysis : JsonReport TestEntry → Dict Text (Dict Text Bool) → Analysis
analysis r = analyze_results (record { summary = r.summary; tests = r.tests })

counted_in_both :
    (k : Key) (path : List Text) (xs ys : List TestEntry)
    → count (counts_test k path) (map named (map detail (xs ++ ys)))
      ≡ count (counts_test k path) (map named (map detail xs))
        + count (counts_test k path) (map named (map detail ys))
counted_in_both k path [] ys = omega arith
counted_in_both k path (x ∷ xs) ys = omega (arith, counted_in_both k path xs ys)

selected_in_both :
    (xs ys : List TestEntry)
    → select wants_attention (map detail (xs ++ ys))
      ≡ select wants_attention (map detail xs) ++ select wants_attention (map detail ys)
selected_in_both [] ys = refl
selected_in_both (x ∷ xs) ys = ground (arith, selected_in_both xs ys)

-- The analysis of the merged report counts at each node of the feature tree, and lists as in need of
-- attention, what those of the two phases do: the deselected tests are counted once, with the first.
pub analyze_results-merge_json_reports :
    (k : Key) (path : List Text) (r1 r2 : JsonReport TestEntry)
    (dropped : Dict Text (Dict Text Bool))
    → (count_at k path (analysis (merge_json_reports r1 r2) dropped).by_feature
        ≡ count_at k path (analysis r1 dropped).by_feature
          + count_at k path (analysis r2 []).by_feature)
      × (needs_attention (analysis (merge_json_reports r1 r2) dropped)
          ≡ needs_attention (analysis r1 dropped) ++ needs_attention (analysis r2 []))
unfolding analyze_results needs_attention merge_json_reports
analyze_results-merge_json_reports k path r1 r2 dropped = (
  omega (
    arith,
    counted_in_both k path r1.tests r2.tests,
    count_at-group_by_feature k path (map named (map detail (r1.tests ++ r2.tests))) dropped,
    count_at-group_by_feature k path (map named (map detail r1.tests)) dropped,
    count_at-group_by_feature k path (map named (map detail r2.tests)) [],
  ),
  selected_in_both r1.tests r2.tests,
)
