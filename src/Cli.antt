-- ===== src/Cli.antt =====
-- The command line of the analyzer (compatibility/result_analyzer: cli.py, report_generator.py).
-- A renderer gives the lines of a report; the one for JSON, and whether the output can be written,
-- are parameters.
pub mod Exit
use functional_tests.Base.{
  ℕ, String, Bool, true, false, not, ◌&&◌, Option, none, some, List, [], ◌∷◌, ◌++◌, ◌==◌, string_eq,
  if◌then◌else◌,
}
use functional_tests.Base.Dict.{Dict, lookup}
use functional_tests.Base.Text.{Text, codes}
use functional_tests.Analyzer.Results.{Report, Analysis, analyze_results}
use functional_tests.Content.{Verdict, pass, fail, determine_verdict}

-- An empty output is no output, as the code tests its truth.
pub record Args : Type 0 where
  pub input : String
  pub output : String
  pub format : String
  pub quiet : Bool
  pub no_summary : Bool

-- The input file: it is missing, it makes the analysis raise, or it is a report with its sidecar.
pub data Input : Type 0 where
  missing broken : Input
  report : Report → Dict Text (Dict Text Bool) → Input

abbrev pub Renderer : Type 0
Renderer = Analysis → List Text

-- The exit status, whether the summary was printed, and the lines that were written.
pub record Run : Type 0 where
  pub status : ℕ
  pub summary : Bool
  pub written : Option (List Text)

abbrev pub exit_of : Verdict → ℕ
exit_of Verdict.pass = 0
exit_of Verdict.fail = 1

module _ (renderers : Dict String Renderer) (writable : String → Bool) where
  -- `none` is a `ValueError` or an `OSError`.
  unfoldable pub generate_report : Analysis → String → String → Option (List Text)
  generate_report a output format = elim (lookup format renderers) [
    | none ↦ none
    | some render ↦ if writable output then some (render a) else none
  ]

  -- What follows the analysis.
  unfoldable pub on_analysis : Args → Analysis → Run
  unfolding generate_report determine_verdict
  on_analysis args a =
      let summary = not args.quiet && not args.no_summary in
      let status = exit_of ((determine_verdict a.reconciliation.counts).0) in
      if args.output == ""
      then record { status = status; summary = summary; written = none }
      else elim (generate_report a args.output args.format) [
        | none ↦ record { status = 1; summary = summary; written = none }
        | some lines ↦ record { status = status; summary = summary; written = some lines }
      ]

  unfoldable pub main : Args → Input → Run
  unfolding on_analysis analyze_results
  main args missing = record { status = 1; summary = false; written = none }
  main args broken = record { status = 1; summary = false; written = none }
  main args (report r deselected) = on_analysis args (analyze_results r deselected)
