-- ===== src/Analyzer/Results.antt =====
-- The analysis of a whole report (`ResultAnalyzer.analyze_results` of analyzer.py).
pub mod Fields
pub mod Agreement
use functional_tests.Base.{
  ℕ, String, Bool, true, false, Option, none, some, List, [], ◌∷◌, map, ◌==◌, text_eq,
  if◌then◌else◌,
}
use functional_tests.Base.Dict.{Dict}
use functional_tests.Base.Text.{Text, codes}
use functional_tests.Analyzer.Report.{
  Longrepr, text, Phase, TestEntry, Outcome, pass, fail, error, skipped, xfail, xpass,
  categorize_outcome, failing_phase_info,
}
use functional_tests.Analyzer.Extract.{
  text_or_empty, is_infrastructure_error, extract_failure_tag, extract_skip_reason,
}
use functional_tests.Analyzer.Reconcile.{Reconciliation, build_reconciliation}
use functional_tests.Analyzer.Feature.{Node, Named, group_by_feature}

-- `test_detail`. An optional field is `none` where the dict lacks its key.
pub record TestDetail : Type 0 where
  pub name : Text
  pub outcome : Outcome
  pub duration : ℕ
  pub error : Option Longrepr
  pub failure_type : Option Text
  pub xfail_reason : Option Text
  pub skip_reason : Option Text

abbrev number_or_zero : Option ℕ → ℕ
number_or_zero none = 0
number_or_zero (some n) = n

-- `phase_info.get("longrepr", "")`
abbrev longrepr_or_empty : Option Longrepr → Longrepr
longrepr_or_empty none = text []
longrepr_or_empty (some l) = l

unfoldable pub failure_type_of : TestEntry → Text
failure_type_of t =
    let tag = extract_failure_tag t in
    if is_infrastructure_error t
    then codes "INFRA_ERROR"
    else if tag == []
    then codes "UNKNOWN"
    else tag

abbrev bare_detail : TestEntry → Outcome → TestDetail
bare_detail t o = record {
  name = text_or_empty t.nodeid;
  outcome = o;
  duration = number_or_zero t.duration;
  error = none;
  failure_type = none;
  xfail_reason = none;
  skip_reason = none;
}

abbrev add_failure : TestEntry → TestDetail → TestDetail
add_failure t d = record d {
  error = some (longrepr_or_empty (failing_phase_info t).longrepr);
  failure_type = some (failure_type_of t);
}

-- The body of the loop over `tests`, by the outcome.
abbrev add_reasons : TestEntry → Outcome → TestDetail → TestDetail
add_reasons t fail d = add_failure t d
add_reasons t Outcome.error d = add_failure t d
add_reasons t xfail d = record d { xfail_reason = some (text_or_empty t.xfail_reason) }
add_reasons t skipped d = record d { skip_reason = some (extract_skip_reason t) }
add_reasons t pass d = d
add_reasons t xpass d = d

unfoldable pub detail : TestEntry → TestDetail
detail t = let o = categorize_outcome t in add_reasons t o (bare_detail t o)

pub record Report : Type 0 where
  pub summary : Dict String ℕ
  pub tests : List TestEntry

pub record Analysis : Type 0 where
  pub reconciliation : Reconciliation
  pub tests : List TestDetail
  pub by_feature : Node

abbrev pub named : TestDetail → Named
named d = (d.name, d.outcome)

-- The second argument is the sidecar that `_load_deselected` read, or the empty dict.
unfoldable pub analyze_results : Report → Dict Text (Dict Text Bool) → Analysis
analyze_results report deselected_nodeids =
    let details = map detail report.tests in
    record {
      reconciliation = build_reconciliation report.summary;
      tests = details;
      by_feature = group_by_feature (map named details) deselected_nodeids;
    }
