-- ===== src/Render.antt =====
-- The escaping of table cells, the fences of code blocks and the status of a feature
-- (compatibility/result_analyzer/render_markdown.py); and the reports in Markdown and in plain text.
pub mod Fences
pub mod Cells
pub mod Colors
pub mod Tree
pub mod Plain
pub mod Sections
use Prim.Native.Nat.{max}
use functional_tests.Base.{
  ℕ, zero, suc, ◌+◌, List, [], ◌∷◌, ◌==◌, nat_eq, Bool, true, false, ◌||◌, ltb, if◌then◌else◌,
}
use functional_tests.Base.Text.{Text}
use functional_tests.Analyzer.Feature.{Key, failed, error, passed}

-- `text.replace("|", "\\|")`
unfoldable pub table_cell : Text → Text
table_cell [] = []
table_cell (c ∷ s) = let rest = table_cell s in if c == b'|' then b'\\' ∷ b'|' ∷ rest else c ∷ rest

abbrev flush : ℕ → List ℕ → List ℕ
flush zero lengths = lengths
flush (suc n) lengths = suc n ∷ lengths

-- The lengths of the matches of "`+", of which the first has begun with `n` backticks.
unfoldable pub run_lengths : ℕ → Text → List ℕ
run_lengths n [] = flush n []
run_lengths n (c ∷ s) =
    let longer = run_lengths (n + 1) s in
    let later = flush n (run_lengths 0 s) in if c == b'`' then longer else later

-- `max(lengths, default=0)`
unfoldable pub maximum : List ℕ → ℕ
maximum [] = 0
maximum (n ∷ ns) = max n (maximum ns)

abbrev pub backticks : ℕ → Text
backticks zero = []
backticks (suc n) = b'`' ∷ backticks n

unfoldable pub fence : Text → Text
unfolding run_lengths maximum
fence text = backticks (max 3 (maximum (run_lengths 0 text) + 1))

unfoldable pub fenced_block : Text → List Text
fenced_block text = fence text ∷ text ∷ fence text ∷ []

-- The icons: a cross, a blank circle and a check mark.
pub data Status : Type 0 where
  red blank green : Status

unfoldable pub feature_status : (Key → ℕ) → Status
feature_status counts =
    if ltb 0 (counts failed) || ltb 0 (counts error)
    then red
    else if counts passed == 0
    then blank
    else green
