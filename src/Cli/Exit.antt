-- ===== src/Cli/Exit.antt =====
-- The exit status of the analyzer (compatibility/result_analyzer/cli.py).
use functional_tests.Base.{
  String, ◌≡◌, ◌↔◌, Bool, true, false, ◌&&◌, ◌||◌, Option, none, some, ◌==◌, string_eq, arith,
}
use functional_tests.Base.Dict.{Dict, lookup}
use functional_tests.Analyzer.Results.{Analysis, analyze_results}
use functional_tests.Content.{Verdict, determine_verdict}
use functional_tests.Cli.{
  Args, Input, missing, broken, report, Renderer, generate_report, on_analysis, main,
}

abbrev pub is_some : {A : Type 0} → Option A → Bool
is_some none = false
is_some (some _) = true

abbrev pub passes : Analysis → Bool
passes a = elim ((determine_verdict a.reconciliation.counts).0) [
  | Verdict.pass ↦ true
  | Verdict.fail ↦ false
]

module _ (renderers : Dict String Renderer) (writable : String → Bool) where
  -- The output, if one is asked for, has a known format and can be written.
  abbrev pub output_ok : Args → Bool
  output_ok args =
      args.output == "" || is_some (lookup args.format renderers) && writable args.output

  abbrev pub is_good : Args → Input → Bool
  is_good args missing = false
  is_good args broken = false
  is_good args (report r deselected) = passes (analyze_results r deselected) && output_ok args

  on_analysis-status :
      (args : Args) (a : Analysis)
      → ((on_analysis renderers writable args a).status ≡ 0) ↔ ((passes a && output_ok args) ≡ true)
  unfolding on_analysis generate_report
  on_analysis-status args a = ground arith

  -- The analyzer exits with zero exactly if there is a report that can be analysed, its run passes,
  -- and the output, if one is asked for, has a known format and can be written.
  pub main-status :
      (args : Args) (input : Input)
      → ((main renderers writable args input).status ≡ 0) ↔ (is_good args input ≡ true)
  unfolding main
  main-status args missing = ground arith
  main-status args broken = ground arith
  main-status args (report r deselected) = on_analysis-status args (analyze_results r deselected)
