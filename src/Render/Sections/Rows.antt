-- ===== src/Render/Sections/Rows.antt =====
-- The rows and the totals of the sections (compatibility/result_analyzer/render_markdown.py).
use mathlib.Core.List.{append_assoc}
use functional_tests.Base.{
  ℕ, suc, ◌+◌, ◌≡◌, refl, ap, ◌∙◌, Bool, false, not, ◌&&◌, List, [], ◌∷◌, ◌++◌, ◌==◌, nat_eq,
  text_eq, length, length-append, arith, if◌then◌else◌,
}
use functional_tests.Base.Text.{Text, codes}
use functional_tests.Analyzer.Results.{TestDetail, Analysis}
use functional_tests.Content.{
  Entry, needs_attention, failure_type, Groups, add_to_group, group_all, group_needs_attention,
}
use functional_tests.Render.{table_cell}
use functional_tests.Render.Sections.{or_else, entry_row, total_of}

-- The pipes that split a row: those without a backslash directly in front. The flag tells that a
-- backslash stands in front of the text.
unfoldable pub separators : Bool → Text → ℕ
unfolding nat_eq
separators escaped [] = 0
separators escaped (c ∷ s) = (if c == b'|' && not escaped then 1 else 0) + separators (c == b'\\') s

-- Behind a cell, a row goes on with a character that is no pipe and no backslash.
separators-table_cell :
    (escaped : Bool) (s rest : Text) (d : ℕ)
    → (d == b'|') ≡ false
    → (d == b'\\') ≡ false
    → separators escaped (table_cell s ++ d ∷ rest) ≡ separators false rest
unfolding separators table_cell
separators-table_cell escaped [] rest d no_pipe no_escape = ground (arith, no_pipe, no_escape)
separators-table_cell escaped (c ∷ s) rest d no_pipe no_escape = ground (
  arith,
  separators-table_cell false s rest d no_pipe no_escape,
  separators-table_cell (c == b'\\') s rest d no_pipe no_escape,
)

or_else-table_cell :
    (s : Text) → or_else (table_cell s) (codes "-") ≡ table_cell (or_else s (codes "-"))
unfolding table_cell nat_eq
or_else-table_cell [] = refl
or_else-table_cell (c ∷ s) = ground arith

regroup : (cell a reason b : Text) → cell ++ a ++ reason ++ b ≡ cell ++ (a ++ (reason ++ b))
regroup cell a reason b = append_assoc (cell ++ a) reason b ∙ append_assoc cell a (reason ++ b)

cells_apart :
    (name reason : Text)
    → separators false
        (codes "| `" ++ table_cell name ++ codes "` | " ++ table_cell reason ++ codes " |")
      ≡ 3
unfolding separators nat_eq
cells_apart name reason = omega (
  arith,
  ap (separators false) (regroup (table_cell name) (codes "` | ") (table_cell reason) (codes " |")),
  separators-table_cell false name (codes " | " ++ (table_cell reason ++ codes " |")) b'`' refl
      refl,
  separators-table_cell false reason (codes "|") b' ' refl refl,
)

-- Whatever the name and the reason of an entry, its row in the tables of known gaps and of skipped
-- tests is split by three pipes, as the head of the table is.
entry_row_lem : (e : Entry) → separators false (entry_row e) ≡ 3
unfolding entry_row
entry_row_lem e =
    ap (λ s. separators false (codes "| `" ++ table_cell e.name ++ codes "` | " ++ s ++ codes " |"))
      (or_else-table_cell e.reason)
    ∙ cells_apart e.name (or_else e.reason (codes "-"))

total_of-add_to_group :
    (ft : Text) (t : TestDetail) (groups : Groups)
    → total_of (add_to_group ft t groups) ≡ suc (total_of groups)
unfolding total_of add_to_group
total_of-add_to_group ft t [] = omega arith
total_of-add_to_group ft t ((k, ts) ∷ groups) =
    ground (arith, length-append ts (t ∷ []), total_of-add_to_group ft t groups)

total_of-group_all :
    (ts : List TestDetail) (groups : Groups)
    → total_of (group_all ts groups) ≡ length ts + total_of groups
unfolding group_all total_of
total_of-group_all [] groups = omega arith
total_of-group_all (t ∷ ts) groups = omega (
  arith,
  total_of-group_all ts (add_to_group (failure_type t) t groups),
  total_of-add_to_group (failure_type t) t groups,
)

-- The number in the heading of the section is that of all failed and errored tests of the run.
total_of-group_needs_attention :
    (a : Analysis) → total_of (group_needs_attention a) ≡ length (needs_attention a)
unfolding group_needs_attention total_of
total_of-group_needs_attention a = omega (arith, total_of-group_all (needs_attention a) [])
