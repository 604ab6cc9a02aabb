-- ===== src/Render/Tree/Folders.antt =====
-- Each folder of the feature tree has its `<details>` (compatibility/result_analyzer/render_markdown.py).
use mathlib.Core.Path.{subst}
use functional_tests.Base.{
  ℕ, suc, ◌+◌, ◌≡◌, refl, ap, ◌∙◌, Bool, true, false, some, List, [], ◌∷◌, ◌++◌, map, text_eq,
  nat_eq, all, zero_add, arith, if◌then◌else◌,
}
use functional_tests.Base.Text.{Text, codes}
use functional_tests.Ast.Every.{is_nil}
use functional_tests.Analyzer.Feature.{Key, Node, node, Children, nil, child}
use functional_tests.Render.Tree.{
  sort, has_children, rows, row, children_table, details, feature_nodes, folders,
  feature_breakdown_lines,
}
use functional_tests.Render.Tree.Nesting.{
  scan, step, and_then, Nested, scan-append, append-Nested, plain, all-plain-Nested, all-append,
  sort-plain, Blocks, sort-Blocks, concat-Blocks,
}

-- The folders among the descendants of a node.
mutual
  pub folders_below : Node → ℕ
  folders_below (node _ _ cs) = folders_among cs

  pub folders_among : Children → ℕ
  folders_among nil = 0
  folders_among (child name n rest) =
      let later = folders_among rest in
      let below = folders_below n in if has_children n then suc below + later else later

all-map :
    (xs : List (Text × Text))
    → all plain (map (λ (p : Text × Text). p.1) xs) ≡ all (λ (x : Text × Text). plain x.1) xs
all-map [] = refl
all-map (x ∷ xs) = ground (arith, all-map xs)

module _ (str : ℕ → Text) where
  row-plain : (name : Text) (n : Node) → plain (row str name n) ≡ true
  unfolding row text_eq nat_eq
  row-plain name n = refl

  rows-plain :
      (wanted : Bool) (cs : Children)
      → all (λ (x : Text × Text). plain x.1) (rows str wanted cs) ≡ true
  unfolding rows
  rows-plain wanted nil = refl
  rows-plain wanted (child name n rest) = ground (arith, row-plain name n, rows-plain wanted rest)

  children_table-plain : (cs : Children) → all plain (children_table str cs) ≡ true
  unfolding children_table
  children_table-plain cs =
      let wanted = sort (rows str true cs) ++ sort (rows str false cs) in
      ground (
        arith,
        all-map wanted,
        all-append (λ (x : Text × Text). plain x.1) (sort (rows str true cs))
            (sort (rows str false cs)),
        sort-plain (rows str true cs),
        sort-plain (rows str false cs),
        rows-plain true cs,
        rows-plain false cs,
      )

  abbrev closing_lines : List Text
  closing_lines = [] ∷ codes "</li></ul>" ∷ codes "</details>" ∷ [] ∷ []

  details-Nested :
      (name : Text) (c : Key → ℕ) (inside : List Text) (n : ℕ)
      → Nested inside n
      → Nested (details str name c inside) (suc n)
  unfolding details scan step text_eq nat_eq
  details-Nested name c inside n h k opened =
      scan-append inside closing_lines (suc k) (suc opened)
      ∙ ap (and_then (scan closing_lines)) (h (suc k) (suc opened))
      ∙ ap (λ o. some (k, o)) (omega arith)

  empty_if : Bool → List Text
  empty_if b = if b then [] else [] ∷ []

  empty_if-Nested : (b : Bool) → Nested (empty_if b) 0
  unfolding empty_if text_eq nat_eq
  empty_if-Nested true = all-plain-Nested [] refl
  empty_if-Nested false = all-plain-Nested ([] ∷ []) refl

  add_folder :
      (name : Text) (n : Node) (rest : Children)
      → Nested (feature_nodes str n) (folders_below n)
      → Blocks (folders str rest) (folders_among rest)
      → Blocks (folders str (child name n rest)) (folders_among (child name n rest))
  unfolding folders folders_among Blocks
  add_folder name (node counts requires nil) rest inner later = later
  add_folder name (node counts requires (child d m more)) rest inner later =
      let n = node counts requires (child d m more) in
      (
        suc (folders_below n),
        folders_among rest,
        details-Nested name counts (feature_nodes str n) (folders_below n) inner,
        later,
        refl,
      )

  mutual
    unfolding feature_nodes folders_below empty_if Blocks

    feature_nodes-Nested : (n : Node) → Nested (feature_nodes str n) (folders_below n)
    feature_nodes-Nested (node counts requires cs) =
        let table = children_table str cs in
        subst (Nested (feature_nodes str (node counts requires cs))) (zero_add (folders_among cs)) (
          append-Nested (table ++ empty_if (is_nil table)) _ 0 (folders_among cs)
            (append-Nested table (empty_if (is_nil table)) 0 0
              (all-plain-Nested table (children_table-plain cs)) (empty_if-Nested (is_nil table)))
            (concat-Blocks (sort (folders str cs)) (folders_among cs)
              (sort-Blocks (folders str cs) (folders_among cs) (folders-Blocks cs))))

    folders-Blocks : (cs : Children) → Blocks (folders str cs) (folders_among cs)
    folders-Blocks nil = refl
    folders-Blocks (child name n rest) =
        add_folder name n rest (feature_nodes-Nested n) (folders-Blocks rest)

  feature_breakdown_lines_lem :
      (n : Node)
      → has_children n ≡ true
      → Nested (feature_breakdown_lines str n) (suc (folders_below n))
  unfolding feature_breakdown_lines scan step text_eq nat_eq
  feature_breakdown_lines_lem (node counts requires nil) h = λ k opened. ground (arith, h)
  feature_breakdown_lines_lem (node counts requires (child d m more)) h = λ k opened.
      let n = node counts requires (child d m more) in
      scan-append (feature_nodes str n) (codes "</details>" ∷ []) (suc k) (suc opened)
      ∙ ap (and_then (scan (codes "</details>" ∷ []))) (feature_nodes-Nested n (suc k) (suc opened))
      ∙ ap (λ o. some (k, o)) (omega arith)

  -- The feature breakdown of a tree with features opens one `<details>` for each folder at any depth,
  -- and one around all; each is closed behind what it encloses, and nothing else is closed.
  pub scan-feature_breakdown_lines :
      (n : Node)
      → has_children n ≡ true
      → scan (feature_breakdown_lines str n) 0 0 ≡ some (0, suc (folders_below n))
  scan-feature_breakdown_lines n h =
      feature_breakdown_lines_lem n h 0 0 ∙ ap (λ o. some (0, o)) (zero_add (suc (folders_below n)))
