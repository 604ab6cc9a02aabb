-- ===== src/Analyzer/Feature/Needs.antt =====
-- The `requires` sets of the tree's nodes and the deselected tests (`group_by_feature`).
use functional_tests.Base.{
  ◌≡◌, refl, Bool, false, ◌&&◌, ◌||◌, none, some, List, [], ◌∷◌, ◌++◌, arith, ◌==◌, contains,
  text_eq, any, Option-cases, inl, inr,
}
use mathlib.Core.List.{foldl}
use functional_tests.Base.Dict.{Dict, keys}
use functional_tests.Base.Text.{Text}
use functional_tests.Analyzer.Feature.{
  Key, deselected, outcome_to_key, feature_path, Node, node, new_node, update, credit, Named,
  credit_test, credit_deselected, group_by_feature, find,
}
use functional_tests.Analyzer.Feature.Counts.{leads_to, find-at_child}

-- Whether the node at the path lists the capability.
pub needs_at : Text → List Text → Node → Bool
unfolding find
needs_at cap [] (node counts needs children) = contains needs cap
needs_at cap (c ∷ cs) (node counts needs children) = elim (find c children) [
  | none ↦ false
  | some n ↦ needs_at cap cs n
]

contains-append :
    (xs : List Text) (x cap : Text) → contains (xs ++ x ∷ []) cap ≡ (contains xs cap || cap == x)
contains-append [] x cap = ground arith
contains-append (y ∷ xs) x cap = ground (arith, contains-append xs x cap)

contains-update :
    (names set : List Text) (cap : Text)
    → contains (update names set) cap ≡ (contains set cap || contains names cap)
unfolding update
contains-update [] set cap = ground arith
contains-update (name ∷ names) set cap = ground (
  arith,
  contains-update names set cap,
  contains-update names (set ++ name ∷ []) cap,
  contains-append set name cap,
)

needs_at-new_node : (cap : Text) (path : List Text) → needs_at cap path new_node ≡ false
unfolding needs_at
needs_at-new_node cap [] = refl
needs_at-new_node cap (c ∷ cs) = refl

needs_at-credit :
    (cap : Text) (key : Key) (requires path cs : List Text) (n : Node)
    → needs_at cap path (credit key requires cs n)
      ≡ (needs_at cap path n || leads_to path cs && contains requires cap)
unfolding needs_at credit leads_to
needs_at-credit cap key requires [] [] (node counts needs children) =
    ground (arith, contains-update requires needs cap)
needs_at-credit cap key requires [] (c ∷ cs) (node counts needs children) =
    ground (arith, contains-update requires needs cap)
needs_at-credit cap key requires (p ∷ path) [] (node counts needs children) = ground arith
needs_at-credit cap key requires (p ∷ path) (c ∷ cs) (node counts needs children) =
    let step = find-at_child p c (credit key requires cs) children in
    elim (Option-cases (find c children)) [
      | inl e ↦ ground (
        arith,
        step,
        e,
        needs_at-credit cap key requires path cs new_node,
        needs_at-new_node cap path,
      )
      | inr (n, e) ↦ ground (arith, step, e, needs_at-credit cap key requires path cs n)
    ]

abbrev pub lacked : Text → List Text → Text × Dict Text Bool → Bool
lacked cap path (nodeid, unmet) = leads_to path (feature_path nodeid) && contains (keys unmet) cap

needs_at-tests :
    (cap : Text) (path : List Text) (tests : List Named) (root : Node)
    → needs_at cap path (foldl credit_test root tests) ≡ needs_at cap path root
needs_at-tests cap path [] root = refl
needs_at-tests cap path ((name, outcome) ∷ tests) root = ground (
  arith,
  needs_at-tests cap path tests (credit_test root (name, outcome)),
  needs_at-credit cap (outcome_to_key outcome) [] path (feature_path name) root,
)

needs_at-deselected :
    (cap : Text) (path : List Text) (dropped : Dict Text (Dict Text Bool)) (root : Node)
    → needs_at cap path (foldl credit_deselected root dropped)
      ≡ (needs_at cap path root || any (lacked cap path) dropped)
needs_at-deselected cap path [] root = ground arith
needs_at-deselected cap path ((nodeid, unmet) ∷ dropped) root = ground (
  arith,
  needs_at-deselected cap path dropped (credit_deselected root (nodeid, unmet)),
  needs_at-credit cap deselected (keys unmet) path (feature_path nodeid) root,
)

-- A node lists a capability exactly when some deselected test at or below its path has it among
-- the requirements that the target did not meet.
pub needs_at-group_by_feature :
    (cap : Text) (path : List Text) (tests : List Named) (dropped : Dict Text (Dict Text Bool))
    → needs_at cap path (group_by_feature tests dropped) ≡ any (lacked cap path) dropped
unfolding group_by_feature
needs_at-group_by_feature cap path tests dropped = ground (
  arith,
  needs_at-deselected cap path dropped (foldl credit_test new_node tests),
  needs_at-tests cap path tests new_node,
  needs_at-new_node cap path,
)
