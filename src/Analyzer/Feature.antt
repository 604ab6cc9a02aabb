-- ===== src/Analyzer/Feature.antt =====
-- The tree of outcome counts by feature path (`feature_path`, `group_by_feature` of analyzer.py).
pub mod Counts
pub mod Needs
pub mod Order
use functional_tests.Base.{
  ℕ, zero, suc, ◌+◌, ◌-◌, Bool, true, false, ◌&&◌, Option, none, some, List, [], ◌∷◌, ◌++◌, ◌==◌,
  contains, nat_eq, text_eq, drop, length, if◌then◌else◌,
}
use mathlib.Core.List.{foldl}
use functional_tests.Base.Dict.{Dict, keys}
use functional_tests.Base.Text.{Text, codes, starts_with, split_on}
use functional_tests.Analyzer.Report.{Outcome}

-- The counters of a node: `_PER_TEST_OUTCOME_KEYS`, and `deselected`.
pub data Key : Type 0 where
  passed failed error skipped xfailed xpassed deselected : Key

Key-discrete : Discrete Key
Key-discrete = hlevel

unfoldable pub same_key : Key → Key → Bool
unfolding Key-discrete
same_key a b = elim (Key-discrete a b) [ yes _ ↦ true | no _ ↦ false ]

-- `OUTCOME_TO_KEY`
abbrev pub outcome_to_key : Outcome → Key
outcome_to_key Outcome.pass = passed
outcome_to_key Outcome.fail = failed
outcome_to_key Outcome.error = error
outcome_to_key Outcome.skipped = skipped
outcome_to_key Outcome.xfail = xfailed
outcome_to_key Outcome.xpass = xpassed

-- `nodeid.split("::", 1)[0]`
unfoldable pub before_selector : Text → Text
before_selector [] = []
before_selector (c ∷ s) =
    let rest = before_selector s in if starts_with (c ∷ s) (codes "::") then [] else c ∷ rest

-- How much of the text a match of `(?:^|/)tests/` takes here; `first` says that it begins here.
abbrev root_match : Bool → Text → ℕ
root_match first s =
    if first && starts_with s (codes "tests/")
    then 6
    else if starts_with s (codes "/tests/")
    then 7
    else 0

abbrev after_match : ℕ → Text → Option Text → Option Text
after_match zero s last = last
after_match (suc n) s last = some (drop (suc n) s)

-- The text after the last of the matches that `finditer` yields. `busy` counts the characters
-- that the current match still covers, since matches do not overlap.
unfoldable pub after_root : ℕ → Bool → Option Text → Text → Option Text
after_root busy first last [] = last
after_root zero first last (c ∷ s) =
    let taken = root_match first (c ∷ s) in
    after_root (taken - 1) false (after_match taken (c ∷ s) last) s
after_root (suc busy) first last (c ∷ s) = after_root busy false last s

abbrev components : Option Text → List Text
components none = []
components (some relative) = split_on b'/' relative

unfoldable pub feature_path : Text → List Text
unfolding before_selector after_root split_on
feature_path nodeid = components (after_root 0 true none (before_selector nodeid))

-- A node has its counts, its `requires` set and its `children`.
mutual
  pub data Node : Type 0 where
    node : (Key → ℕ) → List Text → Children → Node

  pub data Children : Type 0 where
    nil : Children
    child : Text → Node → Children → Children

abbrev pub new_node : Node
new_node = node (λ k. 0) [] nil

-- `counts[key] += 1`
unfoldable pub bump : Key → (Key → ℕ) → Key → ℕ
unfolding same_key
bump key counts k = if same_key k key then counts k + 1 else counts k

-- `requires.update(names)`
unfoldable pub update : List Text → List Text → List Text
update [] set = set
update (name ∷ names) set = update names (if contains set name then set else set ++ (name ∷ []))

-- Applies a function to `children.setdefault(component, new_node())`.
unfoldable pub at_child : Text → (Node → Node) → Children → Children
at_child c f nil = child c (f new_node) nil
at_child c f (child d n rest) = if c == d then child d (f n) rest else child d n (at_child c f rest)

-- `_credit`: the node and every node along the path count the test.
unfoldable pub credit : Key → List Text → List Text → Node → Node
unfolding bump update at_child
credit key requires [] (node counts needs children) =
    node (bump key counts) (update requires needs) children
credit key requires (c ∷ cs) (node counts needs children) =
    node (bump key counts) (update requires needs) (at_child c (credit key requires cs) children)

-- What `group_by_feature` reads of a test: its name and its outcome.
abbrev pub Named : Type 0
Named = Text × Outcome

abbrev pub credit_test : Node → Named → Node
credit_test root (name, outcome) = credit (outcome_to_key outcome) [] (feature_path name) root

-- A deselected test comes with the requirements that the target did not meet.
abbrev pub credit_deselected : Node → Text × Dict Text Bool → Node
credit_deselected root (nodeid, unmet) = credit deselected (keys unmet) (feature_path nodeid) root

unfoldable pub group_by_feature : List Named → Dict Text (Dict Text Bool) → Node
unfolding credit feature_path
group_by_feature tests skipped_out =
    foldl credit_deselected (foldl credit_test new_node tests) skipped_out

-- The node at a path below a node.
unfoldable pub find : Text → Children → Option Node
find c nil = none
find c (child d n rest) = if c == d then some n else find c rest
