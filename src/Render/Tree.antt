-- ===== src/Render/Tree.antt =====
-- The feature breakdown of a report (compatibility/result_analyzer/render_markdown.py). Lines are
-- texts without their line breaks; `str` of a number is a parameter.
pub mod Nesting
pub mod Folders
use functional_tests.Base.{
  ℕ, zero, suc, String, Bool, true, false, not, ◌&&◌, ◌||◌, List, [], ◌∷◌, ◌++◌, map, select, ltb,
  ◌==◌, nat_eq, if◌then◌else◌,
}
use functional_tests.Base.Text.{Text, codes}
use functional_tests.Ast.{concat}
use functional_tests.Ast.Every.{is_nil}
use functional_tests.Analyzer.Feature.{
  Key, passed, failed, error, skipped, xfailed, deselected, Node, node, Children, nil, child,
}
use functional_tests.Render.{Status, red, blank, green, feature_status}

-- Python's order on strings.
unfoldable pub precedes : Text → Text → Bool
unfolding nat_eq
precedes [] t = true
precedes (c ∷ s) [] = false
precedes (c ∷ s) (d ∷ t) = ltb c d || c == d && precedes s t

-- `sorted`, of values with their names.
module _ {A : Type 0} where
  unfoldable pub place : Text × A → List (Text × A) → List (Text × A)
  unfolding precedes
  place x [] = x ∷ []
  place x (y ∷ ys) = let rest = place x ys in if precedes x.0 y.0 then x ∷ y ∷ ys else y ∷ rest

  unfoldable pub sort : List (Text × A) → List (Text × A)
  unfolding place
  sort [] = []
  sort (x ∷ xs) = place x (sort xs)

-- `", ".join(parts)`
unfoldable pub join : List Text → Text
join [] = []
join (t ∷ []) = t
join (t ∷ u ∷ ts) = t ++ codes ", " ++ join (u ∷ ts)

unfoldable pub icon : Status → Text
icon red = codes "❌"
icon blank = codes "⚪"
icon green = codes "✅"

abbrev pub labels : List (Key × Text)
labels =
    (passed, codes "passed")
    ∷ (failed, codes "failed")
    ∷ (error, codes "errored")
    ∷ (xfailed, codes "known gaps")
    ∷ (skipped, codes "skipped")
    ∷ (deselected, codes "unsupported")
    ∷ []

abbrev pub children_of : Node → Children
children_of (node _ _ cs) = cs

abbrev pub counts_of : Node → Key → ℕ
counts_of (node counts _ _) = counts

abbrev pub has_children : Node → Bool
has_children (node _ _ nil) = false
has_children (node _ _ (child _ _ _)) = true

abbrev named_self : Text → Text × Text
named_self t = (t, t)

module _ (str : ℕ → Text) where
  unfoldable parts : (Key → ℕ) → List (Key × Text) → List Text
  parts counts [] = []
  parts counts ((key, label) ∷ rest) =
      let later = parts counts rest in
      if ltb 0 (counts key) then (str (counts key) ++ codes " " ++ label) ∷ later else later

  unfoldable pub feature_summary : (Key → ℕ) → Text
  unfolding parts join
  feature_summary counts =
      let found = parts counts labels in if is_nil found then codes "no tests" else join found

  unfoldable pub unsupported_cell : Node → Status → Text
  unfolding sort join
  unsupported_cell (node counts requires _) blank =
      let count = str (counts deselected) in
      let names = map (λ (p : Text × Text). p.1) (sort (map named_self requires)) in
      if not (ltb 0 (counts deselected)) || is_nil requires
      then count
      else count ++ codes " <sub>needs: " ++ join names ++ codes "</sub>"
  unsupported_cell (node counts _ _) _ = str (counts deselected)

  -- A row of the table of children.
  unfoldable pub row : Text → Node → Text
  unfolding feature_status icon unsupported_cell
  row name n =
      let c = counts_of n in
      let status = feature_status c in
      codes "| "
      ++ icon status
      ++ codes " | "
      ++ name
      ++ (if has_children n then codes "/" else [])
      ++ codes " | "
      ++ str (c passed)
      ++ codes " | "
      ++ str (c failed)
      ++ codes " | "
      ++ str (c error)
      ++ codes " | "
      ++ str (c xfailed)
      ++ codes " | "
      ++ str (c skipped)
      ++ codes " | "
      ++ unsupported_cell n status
      ++ codes " |"

  -- The rows of the folders, or of the files.
  unfoldable pub rows : Bool → Children → List (Text × Text)
  unfolding row
  rows wanted nil = []
  rows wanted (child name n rest) =
      let later = rows wanted rest in
      if (if wanted then has_children n else not (has_children n))
      then (name, row name n) ∷ later
      else later

  unfoldable pub children_table : Children → List Text
  unfolding rows sort
  children_table cs =
      let ordered = map (λ (p : Text × Text). p.1) (sort (rows true cs) ++ sort (rows false cs)) in
      if is_nil ordered
      then []
      else codes "| | Feature | Passed | Failed | Errored | Known gaps | Skipped | Unsupported |"
        ∷ codes "|--|--|--:|--:|--:|--:|--:|--:|"
        ∷ ordered

  -- The `<details>` of a folder around the lines of its node.
  unfoldable pub details : Text → (Key → ℕ) → List Text → List Text
  unfolding feature_status icon feature_summary
  details name c inside =
      codes "<details>"
      ∷ (codes "<summary>"
          ++ icon (feature_status c)
          ++ codes " <b>"
          ++ name
          ++ codes "/</b> — "
          ++ feature_summary c
          ++ codes "</summary>")
      ∷ codes "<ul><li>"
      ∷ []
      ∷ (inside ++ ([] ∷ codes "</li></ul>" ∷ codes "</details>" ∷ [] ∷ []))

  unfoldable mutual
    unfolding children_table details sort

    pub feature_nodes : Node → List Text
    feature_nodes (node _ _ cs) =
        let table = children_table cs in
        table
        ++ (if is_nil table then [] else [] ∷ [])
        ++ concat (map (λ (p : Text × List Text). p.1) (sort (folders cs)))

    -- The folders with their lines, before they are sorted.
    pub folders : Children → List (Text × List Text)
    folders nil = []
    folders (child name n rest) =
        let inside = feature_nodes n in
        let later = folders rest in
        if has_children n then (name, details name (counts_of n) inside) ∷ later else later

  unfoldable pub feature_breakdown_lines : Node → List Text
  unfolding feature_nodes
  feature_breakdown_lines n =
      if has_children n
      then []
        ∷ codes "### Feature breakdown"
        ∷ []
        ∷ codes "<details>"
        ∷ codes "<summary>Show all</summary>"
        ∷ []
        ∷ (feature_nodes n ++ (codes "</details>" ∷ []))
      else []
