-- ===== src/Tests/Merged.antt =====
-- The merged report of two phases, a run in two orders, and a server that does not answer.
use mathlib.Core.List.{Permᴰ}
use mathlib.Core.List.Permᴰ
use functional_tests.Base.{
  ◌+◌, ◌≡◌, refl, String, Bool, true, Option, none, some, List, [], ◌∷◌, ◌++◌,
}
use functional_tests.Base.Dict.{Dict}
use functional_tests.Base.Text.{Text, codes}
use functional_tests.Analyzer.Report.{TestEntry, Outcome}
use functional_tests.Analyzer.Feature.{Key, failed, group_by_feature}
use functional_tests.Analyzer.Feature.Counts.{count_at}
use functional_tests.Analyzer.Feature.Needs.{needs_at}
use functional_tests.Analyzer.Feature.Order.{Listed, SameRun, group_by_feature-SameRun}
use functional_tests.Analyzer.Results.{failure_type_of}
use functional_tests.Content.{needs_attention}
use functional_tests.Session.Merge.{JsonReport, merge_json_reports}
use functional_tests.Session.Merge.Analysis.{analysis, analyze_results-merge_json_reports}
use functional_tests.Session.Clients.{create_engine_client}
use functional_tests.Session.Clients.Closed.{
  crash_text, SetupFailed, failure_type_of-create_engine_client,
}

abbrev entry : Text → String → TestEntry
entry nodeid outcome = record {
  nodeid = some nodeid;
  outcome = some outcome;
  duration = none;
  call = none;
  setup = none;
  teardown = none;
  xfail_reason = none;
}

abbrev report_1 : JsonReport TestEntry
report_1 = record {
  tests = entry (codes "tests/find/test_a.py::x") "passed" ∷ [];
  duration = 3;
  summary = ("passed", 1) ∷ ("total", 1) ∷ [];
}

abbrev report_2 : JsonReport TestEntry
report_2 = record {
  tests = entry (codes "tests/find/test_b.py::y") "failed" ∷ [];
  duration = 4;
  summary = ("failed", 1) ∷ ("total", 1) ∷ [];
}

abbrev dropped : Dict Text (Dict Text Bool)
dropped = (codes "tests/find/test_c.py::z", (codes "oplog", true) ∷ []) ∷ []

abbrev find : List Text
find = codes "find" ∷ []

analyze_results-merge_json_reports_example :
    (count_at failed find (analysis (merge_json_reports report_1 report_2) dropped).by_feature
      ≡ count_at failed find (analysis report_1 dropped).by_feature
        + count_at failed find (analysis report_2 []).by_feature)
    × (needs_attention (analysis (merge_json_reports report_1 report_2) dropped)
        ≡ needs_attention (analysis report_1 dropped) ++ needs_attention (analysis report_2 []))
analyze_results-merge_json_reports_example =
    analyze_results-merge_json_reports failed find report_1 report_2 dropped

abbrev run : Listed
run = (
  (codes "tests/find/test_a.py::x", Outcome.pass)
      ∷ (codes "tests/find/test_b.py::y", Outcome.fail)
      ∷ [],
  dropped,
)

abbrev other_order : Listed
other_order = (
  (codes "tests/find/test_b.py::y", Outcome.fail)
      ∷ (codes "tests/find/test_a.py::x", Outcome.pass)
      ∷ [],
  dropped,
)

reordered : SameRun run other_order
reordered = (Permᴰ.swap refl refl, Permᴰ.refl dropped)

group_by_feature-SameRun_example :
    ((k : Key)
      → count_at k find (group_by_feature (run.0) (run.1))
        ≡ count_at k find (group_by_feature (other_order.0) (other_order.1)))
    × ((cap : Text)
        → needs_at cap find (group_by_feature (run.0) (run.1))
          ≡ needs_at cap find (group_by_feature (other_order.0) (other_order.1)))
group_by_feature-SameRun_example = group_by_feature-SameRun run other_order reordered find

abbrev refused : Option Text
refused =
    crash_text
      ((create_engine_client none (some (codes "refused")) (codes "mongodb://a") (codes "x")).1)

abbrev failed_entry : TestEntry
failed_entry = record (entry (codes "tests/find/test_a.py::x") "error") {
  setup = some (record { outcome = some "failed"; message = refused; longrepr = none });
}

failed_at_setup : SetupFailed failed_entry refused
failed_at_setup = record {
  phase = record { outcome = some "failed"; message = refused; longrepr = none };
  no_call = refl;
  at_setup = refl;
  outcome = refl;
  recorded = refl;
}

failure_type_of-create_engine_client_example : failure_type_of failed_entry ≡ codes "INFRA_ERROR"
failure_type_of-create_engine_client_example =
    failure_type_of-create_engine_client (codes "refused") (codes "mongodb://a") (codes "x")
      failed_entry failed_at_setup
