-- ===== src/Render/Sections.antt =====
-- The sections of the Markdown report but for the features
-- (compatibility/result_analyzer/render_markdown.py). Lines are texts without their line breaks;
-- `str` of a number, `html.escape` and the text of a traceback are parameters.
pub mod Rows
use functional_tests.Base.{
  ℕ, zero, suc, ◌+◌, ◌/◌, ◌%◌, String, Bool, true, false, not, ◌&&◌, ◌||◌, Option, none, some, List,
  [], ◌∷◌, ◌++◌, map, ltb, length, if◌then◌else◌,
}
use functional_tests.Base.Text.{Text, codes, is_space}
use functional_tests.Ast.{concat}
use functional_tests.Ast.Every.{is_nil}
use functional_tests.Analyzer.Report.{Outcome, Longrepr}
use functional_tests.Analyzer.Reconcile.{Counts}
use functional_tests.Analyzer.Results.{TestDetail, Analysis}
use functional_tests.Content.{
  Verdict, pass, determine_verdict, Entry, known_gaps, skipped_tests, Groups, group_needs_attention,
  cap_items, needs_attention_cap, PassRate, nothing_ran, all_passed, tenths, pass_rate,
}
use functional_tests.Render.{table_cell, fenced_block}
use functional_tests.Render.Tree.{sort, feature_breakdown_lines}

-- `text.rstrip()`
unfoldable pub rstrip : Text → Text
unfolding is_space
rstrip [] = []
rstrip (c ∷ s) = let rest = rstrip s in if is_nil rest && is_space c then [] else c ∷ rest

-- `text or other`
abbrev pub or_else : Text → Text → Text
or_else [] other = other
or_else (c ∷ s) other = c ∷ s

unfoldable pub outcome_text : Outcome → Text
outcome_text Outcome.pass = codes "PASS"
outcome_text Outcome.fail = codes "FAIL"
outcome_text Outcome.error = codes "ERROR"
outcome_text Outcome.skipped = codes "SKIPPED"
outcome_text Outcome.xfail = codes "XFAIL"
outcome_text Outcome.xpass = codes "XPASS"

abbrev pub verdict_text : Verdict → Text × Text
verdict_text Verdict.pass = (codes "✅", codes "PASS")
verdict_text Verdict.fail = (codes "❌", codes "FAIL")

unfoldable pub verdict_heading : Counts → Text
unfolding determine_verdict
verdict_heading c =
    let (verdict, reason) = determine_verdict c in
    let (mark, name) = verdict_text verdict in
    codes "## "
    ++ mark
    ++ codes " "
    ++ name
    ++ (if is_nil (codes reason) then [] else codes " - " ++ codes reason)

-- The row of an entry in the tables of known gaps and of skipped tests.
unfoldable pub entry_row : Entry → Text
unfolding table_cell
entry_row e =
    codes "| `"
    ++ table_cell e.name
    ++ codes "` | "
    ++ or_else (table_cell e.reason) (codes "-")
    ++ codes " |"

-- `sum(len(v) for v in grouped.values())`
unfoldable pub total_of : Groups → ℕ
total_of [] = 0
total_of ((_, ts) ∷ groups) = length ts + total_of groups

module _ (str : ℕ → Text) where
  unfoldable pub rate_text : PassRate → Text
  rate_text nothing_ran = codes "—"
  rate_text all_passed = codes "100%"
  rate_text (tenths n) = str (n / 10) ++ codes "." ++ str (n % 10) ++ codes "%"

  -- A row of the breakdown.
  abbrev count_row : Text → ℕ → Text
  count_row label n = codes "| " ++ label ++ codes " | " ++ str n ++ codes " |"

  unfoldable pub breakdown_lines : Counts → List Text
  unfolding rate_text pass_rate
  breakdown_lines c =
      let row = λ (label : String) (n : ℕ). count_row (codes label) n in
      (codes "### Breakdown"
        ∷ []
        ∷ codes "| Outcome | Count |"
        ∷ codes "|---|--:|"
        ∷ row "Collected" c.collected
        ∷ row "\u{2003}Unsupported (deselected)" c.deselected
        ∷ row "\u{2003}Executed" c.total
        ∷ row "\u{2003}\u{2003}Passed" c.passed
        ∷ row "\u{2003}\u{2003}Failed" c.failed
        ∷ row "\u{2003}\u{2003}Errored" c.error
        ∷ row "\u{2003}\u{2003}Skipped" c.skipped
        ∷ row "\u{2003}\u{2003}Known gaps (xfailed)" c.xfailed
        ∷ [])
      ++ (if ltb 0 c.xpassed
          then row "\u{2003}\u{2003}Unexpected passes (xpassed)" c.xpassed ∷ []
          else [])
      ++ ([]
          ∷ (codes "**Pass rate: "
              ++ rate_text (pass_rate c)
              ++ codes "** - "
              ++ str c.passed
              ++ codes " of "
              ++ str (c.passed + c.failed + c.error)
              ++ codes " passed (skipped and known gaps excluded)")
          ∷ [])

  -- A section with a table of entries, collapsed.
  unfoldable pub entry_lines : Text → List Entry → List Text
  unfolding entry_row
  entry_lines title entries =
      if is_nil entries
      then []
      else []
        ∷ (codes "### " ++ title ++ codes " (" ++ str (length entries) ++ codes ")")
        ∷ []
        ∷ codes "<details>"
        ∷ codes "<summary>Show all</summary>"
        ∷ []
        ∷ codes "| Test | Reason |"
        ∷ codes "|---|---|"
        ∷ (map entry_row entries ++ ([] ∷ codes "</details>" ∷ []))

  unfoldable pub known_gaps_lines : Analysis → List Text
  unfolding entry_lines known_gaps
  known_gaps_lines a = entry_lines (codes "Known gaps") (known_gaps a)

  unfoldable pub skipped_lines : Analysis → List Text
  unfolding entry_lines skipped_tests
  skipped_lines a = entry_lines (codes "Skipped") (skipped_tests a)

  module _ (escape : Text → Text) (text_of : Longrepr → Text) where
    abbrev traceback : Option Longrepr → Text
    traceback none = codes "(no traceback captured)"
    traceback (some l) = or_else (text_of l) (codes "(no traceback captured)")

    unfoldable pub failure_details : TestDetail → List Text
    unfolding fenced_block outcome_text rstrip
    failure_details t =
        codes "<details>"
        ∷ (codes "<summary>"
            ++ outcome_text t.outcome
            ++ codes ": <code>"
            ++ escape t.name
            ++ codes "</code></summary>")
        ∷ []
        ∷ (fenced_block (rstrip (traceback t.error)) ++ (codes "</details>" ∷ [] ∷ []))

    -- What is said of the tests that a group omits.
    abbrev omitted_lines : ℕ → List Text
    omitted_lines zero = []
    omitted_lines (suc n) =
        (codes "_... and "
          ++ str (suc n)
          ++ codes " more not shown (cap "
          ++ str needs_attention_cap
          ++ codes ")._")
        ∷ []
        ∷ []

    unfoldable pub group_lines : Text × List TestDetail → List Text
    unfolding cap_items failure_details
    group_lines (failure_type, tests) =
        let (shown, omitted) = cap_items tests needs_attention_cap in
        ((codes "#### " ++ failure_type ++ codes " (" ++ str (length tests) ++ codes ")") ∷ [] ∷ [])
        ++ concat (map failure_details shown)
        ++ omitted_lines omitted

    unfoldable pub needs_attention_lines : Analysis → List Text
    unfolding group_needs_attention total_of group_lines sort
    needs_attention_lines a =
        let grouped = group_needs_attention a in
        if is_nil grouped
        then []
        else []
          ∷ (codes "### Needs attention (" ++ str (total_of grouped) ++ codes ")")
          ∷ []
          ∷ concat (map group_lines (sort grouped))

    -- The lines of the report.
    unfoldable pub render : Analysis → List Text
    unfolding verdict_heading breakdown_lines needs_attention_lines known_gaps_lines skipped_lines
    render a =
        (verdict_heading a.reconciliation.counts ∷ [] ∷ [])
        ++ breakdown_lines a.reconciliation.counts
        ++ needs_attention_lines a
        ++ known_gaps_lines a
        ++ skipped_lines a
        ++ feature_breakdown_lines str a.by_feature
