-- ===== src/Session/Sidecar/Counted.antt =====
-- From the gate to the report: what the analyzer counts of the reasons that the session has written
-- (`pytest_collection_modifyitems` of conftest.py, `analyze_results` of analyzer.py).
use functional_tests.Base.{ℕ, ◌≡◌, ap, ◌∙◌, Bool, true, not, Option, some, List, count, select, map}
use functional_tests.Base.Dict.{Dict}
use functional_tests.Base.Text.{Text}
use functional_tests.Preconditions.{Detected}
use functional_tests.Analyzer.Feature.{deselected, group_by_feature}
use functional_tests.Analyzer.Feature.Counts.{count_at}
use functional_tests.Analyzer.Results.{Report, detail, named, analyze_results}
use functional_tests.Session.Gate.{Target, Item, Gating, ok, gate_all, start}
use functional_tests.Session.Gate.Partition.{runs}
use functional_tests.Session.Gate.Reasons.{nodeids, texts, is_below, count_at-gate_all}
use functional_tests.Session.Merge.Sums.{Distinct}
use functional_tests.Session.Sidecar.{
  Files, sidecar_path, replaced, System, Reach, Json, dict, load_deselected,
}
use functional_tests.Session.Sidecar.Whole.{load_deselected_lem}

module _ (str : ℕ → Text) (injective : (i j : ℕ) → str i ≡ str j → i ≡ j)
    (detect : Target → Detected)
    (same : (a b : Target) → a.connection_string ≡ b.connection_string → detect a ≡ detect b) where
  -- As soon as one process of a session has replaced the sidecar, the analyzer counts as deselected,
  -- at each node of the feature tree, the items below it whose target does not meet what they
  -- require. The loop of the gate ends, the items have distinct identifiers, targets with one
  -- connection string have the same capabilities, pids are written distinctly, all processes write
  -- one text, which parses to the reasons, and the sidecar can be read.
  pub analyze_results-load_deselected :
      (items : List Item) (s : Gating)
      → gate_all detect items start ≡ ok s
      → Distinct (nodeids items)
      → (parse : Text → Option (Json Text (Dict Text Bool))) (dumped : Text)
      → parse dumped ≡ some (dict (texts s.reasons))
      → (report : Text) (before : Files) (t : System str (sidecar_path report) (λ _. dumped))
      → Reach str (sidecar_path report) (λ _. dumped) before t
      → (pid : ℕ) → t.pc pid ≡ replaced
      → (r : Report) (path : List Text)
      → count_at deselected path
          (analyze_results r (load_deselected parse true t.files report)).by_feature
        ≡ count (is_below path) (nodeids (select (λ i. not (runs detect i)) items))
  unfolding analyze_results
  analyze_results-load_deselected items s ended distinct parse dumped parsed report before t reached
        pid done r path =
      let (_, whole) =
        load_deselected_lem str injective parse report (λ _. dumped) (texts s.reasons) (λ _. parsed)
          reached in
      let tests = map named (map detail r.tests) in
      ap (λ d. count_at deselected path (group_by_feature tests d)) (whole pid done)
      ∙ count_at-gate_all detect same items s ended distinct tests path
