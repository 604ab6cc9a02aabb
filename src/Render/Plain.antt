-- ===== src/Render/Plain.antt =====
-- The plain text report (compatibility/result_analyzer/render_text.py). `str` of a number is a
-- parameter.
pub mod Columns
use functional_tests.Base.{
  ℕ, zero, suc, ◌+◌, ◌-◌, String, Bool, true, false, List, [], ◌∷◌, ◌++◌, map, ltb, length,
  if◌then◌else◌,
}
use functional_tests.Base.Text.{Text, codes}
use functional_tests.Ast.{concat}
use functional_tests.Ast.Every.{is_nil}
use functional_tests.Analyzer.Reconcile.{Counts}
use functional_tests.Analyzer.Results.{TestDetail, Analysis}
use functional_tests.Content.{
  Verdict, determine_verdict, Groups, group_needs_attention, cap_items, needs_attention_cap,
  pass_rate,
}
use functional_tests.Render.{maximum}
use functional_tests.Render.Tree.{sort}
use functional_tests.Render.Sections.{outcome_text, rate_text, total_of}

abbrev verdict_mark : Verdict → Text
verdict_mark Verdict.pass = codes "PASS"
verdict_mark Verdict.fail = codes "FAIL"

unfoldable pub verdict_line : Counts → Text
unfolding determine_verdict
verdict_line c =
    let (verdict, reason) = determine_verdict c in
    verdict_mark verdict ++ (if is_nil (codes reason) then [] else codes " - " ++ codes reason)

unfoldable pub spaces : ℕ → Text
spaces zero = []
spaces (suc n) = b' ' ∷ spaces n

-- `label.ljust(width)`
unfoldable pub ljust : ℕ → Text → Text
unfolding spaces
ljust width label = label ++ spaces (width - length label)

unfoldable pub count_rows : Counts → List (Text × ℕ)
count_rows c =
    ((codes "Collected", c.collected)
      ∷ (codes "  Unsupported", c.deselected)
      ∷ (codes "  Executed", c.total)
      ∷ (codes "    Passed", c.passed)
      ∷ (codes "    Failed", c.failed)
      ∷ (codes "    Errored", c.error)
      ∷ (codes "    Skipped", c.skipped)
      ∷ (codes "    Known gaps", c.xfailed)
      ∷ [])
    ++ (if ltb 0 c.xpassed then (codes "    Unexpected passes", c.xpassed) ∷ [] else [])

-- `max(len(label) for label, _ in rows)`
unfoldable pub width : List (Text × ℕ) → ℕ
unfolding maximum
width rows = maximum (map (λ (r : Text × ℕ). length r.0) rows)

-- The first column, which two spaces and the count follow.
abbrev pub label_column : List (Text × ℕ) → List Text
label_column rows = map (λ (r : Text × ℕ). ljust (width rows) r.0) rows

module _ (str : ℕ → Text) where
  unfoldable pub breakdown_lines : Counts → List Text
  unfolding count_rows width ljust rate_text pass_rate
  breakdown_lines c =
      let rows = count_rows c in
      map (λ (r : Text × ℕ). ljust (width rows) r.0 ++ codes "  " ++ str r.1) rows
      ++ ([] ∷ (codes "Pass rate: " ++ rate_text str (pass_rate c)) ∷ [])

  abbrev omitted_lines : ℕ → List Text
  omitted_lines zero = []
  omitted_lines (suc n) =
      (codes "    ... and "
        ++ str (suc n)
        ++ codes " more (cap "
        ++ str needs_attention_cap
        ++ codes ")")
      ∷ []

  unfoldable pub group_lines : Text × List TestDetail → List Text
  unfolding cap_items outcome_text
  group_lines (failure_type, tests) =
      let (shown, omitted) = cap_items tests needs_attention_cap in
      (codes "  " ++ failure_type ++ codes " (" ++ str (length tests) ++ codes "):")
      ∷ (map (λ (t : TestDetail). codes "    " ++ outcome_text t.outcome ++ codes ": " ++ t.name)
            shown
          ++ omitted_lines omitted)

  unfoldable pub needs_attention_lines : Analysis → List Text
  unfolding group_needs_attention total_of group_lines sort
  needs_attention_lines a =
      let grouped = group_needs_attention a in
      if is_nil grouped
      then []
      else []
        ∷ (codes "Needs attention (" ++ str (total_of grouped) ++ codes "):")
        ∷ concat (map group_lines (sort grouped))

  -- The lines of the report.
  unfoldable pub render : Analysis → List Text
  unfolding verdict_line breakdown_lines needs_attention_lines
  render a =
      ((codes "Verdict: " ++ verdict_line a.reconciliation.counts) ∷ [] ∷ [])
      ++ breakdown_lines a.reconciliation.counts
      ++ needs_attention_lines a
