-- ===== src/Analyzer/Feature/Counts.antt =====
-- The counts of the tree's nodes and the tests below their paths (`group_by_feature`).
use functional_tests.Base.{
  ℕ, ◌+◌, ◌≡◌, refl, Bool, true, false, ◌&&◌, Option, none, some, List, [], ◌∷◌, arith, ◌==◌,
  text_eq, count, Option-cases, inl, inr, if◌then◌else◌,
}
use mathlib.Core.List.{foldl}
use functional_tests.Base.Dict.{Dict, keys}
use functional_tests.Base.Text.{Text}
use functional_tests.Analyzer.Feature.{
  Key, deselected, same_key, outcome_to_key, feature_path, Node, node, Children, nil, child,
  new_node, at_child, credit, Named, credit_test, credit_deselected, group_by_feature, find,
}

-- The count of a node below a path; a node that is not there counts nothing.
pub count_at : Key → List Text → Node → ℕ
unfolding find
count_at k [] (node counts needs children) = counts k
count_at k (c ∷ cs) (node counts needs children) = elim (find c children) [
  | none ↦ 0
  | some n ↦ count_at k cs n
]

-- Whether the first path leads to an ancestor of the second, or is the second.
unfoldable pub leads_to : List Text → List Text → Bool
unfolding text_eq
leads_to [] cs = true
leads_to (p ∷ ps) [] = false
leads_to (p ∷ ps) (c ∷ cs) = p == c && leads_to ps cs

abbrev node_or_new : Option Node → Node
node_or_new none = new_node
node_or_new (some n) = n

pub find-at_child :
    (d c : Text) (f : Node → Node) (children : Children)
    → find d (at_child c f children)
      ≡ (if d == c then some (f (node_or_new (find c children))) else find d children)
unfolding find at_child
find-at_child d c f nil = refl
find-at_child d c f (child e n rest) = ground (arith, find-at_child d c f rest)

count_at-new_node : (k : Key) (path : List Text) → count_at k path new_node ≡ 0
unfolding count_at
count_at-new_node k [] = refl
count_at-new_node k (c ∷ cs) = refl

-- One credit adds one to the nodes above and at its path, under its own key.
count_at-credit :
    (k key : Key) (requires path cs : List Text) (n : Node)
    → count_at k path (credit key requires cs n)
      ≡ count_at k path n + (if leads_to path cs && same_key k key then 1 else 0)
unfolding count_at credit leads_to
count_at-credit k key requires [] [] (node counts needs children) = ground arith
count_at-credit k key requires [] (c ∷ cs) (node counts needs children) = ground arith
count_at-credit k key requires (p ∷ path) [] (node counts needs children) = ground arith
count_at-credit k key requires (p ∷ path) (c ∷ cs) (node counts needs children) =
    let step = find-at_child p c (credit key requires cs) children in
    elim (Option-cases (find c children)) [
      | inl e ↦ ground (
        arith,
        step,
        e,
        count_at-credit k key requires path cs new_node,
        count_at-new_node k path,
      )
      | inr (n, e) ↦ ground (arith, step, e, count_at-credit k key requires path cs n)
    ]

-- The tests at or below a path that are counted under a key.
abbrev pub counts_test : Key → List Text → Named → Bool
counts_test k path (name, outcome) =
    leads_to path (feature_path name) && same_key k (outcome_to_key outcome)

abbrev pub counts_deselected : Key → List Text → Text × Dict Text Bool → Bool
counts_deselected k path (nodeid, unmet) =
    leads_to path (feature_path nodeid) && same_key k deselected

count_at-tests :
    (k : Key) (path : List Text) (tests : List Named) (root : Node)
    → count_at k path (foldl credit_test root tests)
      ≡ count_at k path root + count (counts_test k path) tests
count_at-tests k path [] root = omega arith
count_at-tests k path ((name, outcome) ∷ tests) root = omega (
  arith,
  count_at-tests k path tests (credit_test root (name, outcome)),
  count_at-credit k (outcome_to_key outcome) [] path (feature_path name) root,
)

count_at-deselected :
    (k : Key) (path : List Text) (dropped : Dict Text (Dict Text Bool)) (root : Node)
    → count_at k path (foldl credit_deselected root dropped)
      ≡ count_at k path root + count (counts_deselected k path) dropped
count_at-deselected k path [] root = omega arith
count_at-deselected k path ((nodeid, unmet) ∷ dropped) root = omega (
  arith,
  count_at-deselected k path dropped (credit_deselected root (nodeid, unmet)),
  count_at-credit k deselected (keys unmet) path (feature_path nodeid) root,
)

-- For each path and each key, the node at the path (or zero, where there is no node) holds the
-- number of tests at or below it with that outcome, plus, for `deselected` alone, the number of
-- deselected tests at or below it.
pub count_at-group_by_feature :
    (k : Key) (path : List Text) (tests : List Named) (dropped : Dict Text (Dict Text Bool))
    → count_at k path (group_by_feature tests dropped)
      ≡ count (counts_test k path) tests + count (counts_deselected k path) dropped
unfolding group_by_feature
count_at-group_by_feature k path tests dropped = omega (
  arith,
  count_at-deselected k path dropped (foldl credit_test new_node tests),
  count_at-tests k path tests new_node,
  count_at-new_node k path,
)
