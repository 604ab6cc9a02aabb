-- ===== src/Tests/Reports.antt =====
-- A rendered tree, a row with pipes, the exit status of the analyzer.
use functional_tests.Base.{
  ℕ, zero, suc, ◌≡◌, ◌↔◌, refl, Bool, true, false, some, [], ◌∷◌, String, string_eq, nat_eq,
  text_eq,
}
use functional_tests.Base.Dict.{Dict}
use functional_tests.Base.Text.{Text, codes}
use functional_tests.Analyzer.Feature.{Node, node, child, nil}
use functional_tests.Analyzer.Results.{Report}
use functional_tests.Render.Tree.{feature_breakdown_lines}
use functional_tests.Render.Tree.Nesting.{scan}
use functional_tests.Render.Tree.Folders.{folders_below, scan-feature_breakdown_lines}
use functional_tests.Cli.{Args, report, Renderer, main}
use functional_tests.Cli.Exit.{is_good, main-status}

-- A number as so many strokes.
abbrev strokes : ℕ → Text
strokes zero = []
strokes (suc n) = b'I' ∷ strokes n

abbrev leaf : Node
leaf = node (λ _. 1) [] nil

abbrev tree : Node
tree =
    node (λ _. 2) []
      (child (codes "find") (node (λ _. 1) [] (child (codes "test_find.py") leaf nil))
        (child (codes "aggregate") (node (λ _. 1) [] (child (codes "test_a.py") leaf nil)) nil))

scan-feature_breakdown_lines_example :
    scan (feature_breakdown_lines strokes tree) 0 0 ≡ some (0, suc (folders_below tree))
scan-feature_breakdown_lines_example = scan-feature_breakdown_lines strokes tree refl

abbrev args : Args
args = record {
  input = "report.json";
  output = "report.txt";
  format = "text";
  quiet = true;
  no_summary = false;
}

abbrev renderers : Dict String Renderer
renderers = ("text", λ a. []) ∷ []

abbrev writable : String → Bool
writable _ = true

abbrev empty_report : Report
empty_report = record { summary = []; tests = [] }

main-status_example :
    ((main renderers writable args (report empty_report [])).status ≡ 0)
    ↔ (is_good renderers writable args (report empty_report []) ≡ true)
main-status_example = main-status renderers writable args (report empty_report [])

em_space : codes "\u{2003}" ≡ 0x2003 ∷ []
em_space = refl
