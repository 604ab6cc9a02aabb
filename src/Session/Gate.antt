-- ===== src/Session/Gate.antt =====
-- Which collected items run: the first two parts of `pytest_collection_modifyitems` of conftest.py.
pub mod Partition
pub mod Total
pub mod Reasons
use functional_tests.Base.{
  ℕ, String, Bool, true, false, not, ◌||◌, Option, none, some, List, [], ◌∷◌, ◌++◌, ◌==◌, string_eq,
  select, if◌then◌else◌,
}
use functional_tests.Base.Dict.{Dict, lookup, insert}
use functional_tests.Preconditions.{
  Error, capabilities_known, Detected, capabilities, Unmet, unmet, unmet_requirements,
}

-- `Target` of engine_registry.py.
pub record Target : Type 0 where
  pub name : String
  pub engine : String
  pub connection_string : String

-- A collected test: the keywords of its closest `requires` marker, the target that it is bound to
-- (`_item_target`), and whether it has a `no_parallel` marker.
pub record Item : Type 0 where
  pub nodeid : String
  pub required : Option (Dict String Bool)
  pub target : Option Target
  pub no_parallel : Bool

-- The variables of the loop.
pub record Gating : Type 0 where
  pub capabilities_by_target : Dict String (List String)
  pub kept : List Item
  pub deselected : List Item
  pub reasons : Dict String (Dict String Bool)

-- The loop goes on, or an exception leaves it.
pub data Loop : Type 0 where
  ok : Gating → Loop
  raised : Error → Loop

abbrev pub keep : Item → Gating → Gating
keep item s = record s { kept = s.kept ++ item ∷ [] }

-- What follows the call of `unmet_requirements`.
abbrev pub sort_item : Item → Unmet → Gating → Loop
sort_item item (Unmet.error e) s = raised e
sort_item item (unmet []) s = ok (keep item s)
sort_item item (unmet (r ∷ rs)) s = ok (record s {
  deselected = s.deselected ++ item ∷ [];
  reasons = insert item.nodeid (r ∷ rs) s.reasons;
})

abbrev pub with_detected : Item → Dict String Bool → Target → Detected → Gating → Loop
with_detected item required t (Detected.error e) s = raised e
with_detected item required t (capabilities names) s =
    sort_item item (unmet_requirements capabilities_known required names) (record s {
      capabilities_by_target = insert t.connection_string names s.capabilities_by_target;
    })

abbrev pub then_gate : (Gating → Loop) → Loop → Loop
then_gate next (ok s) = next s
then_gate next (raised e) = raised e

module _ (detect : Target → Detected) where
  -- Each distinct connection string is probed once.
  abbrev pub with_target : Item → Dict String Bool → Target → Option (List String) → Gating → Loop
  with_target item required t (some names) s =
      sort_item item (unmet_requirements capabilities_known required names) s
  with_target item required t none s = with_detected item required t (detect t) s

  abbrev pub gate_on : Item → Option (Dict String Bool) → Option Target → Gating → Loop
  gate_on item none target s = ok (keep item s)
  gate_on item (some []) target s = ok (keep item s)
  gate_on item (some (r ∷ rs)) none s = ok (keep item s)
  gate_on item (some (r ∷ rs)) (some t) s =
      with_target item (r ∷ rs) t (lookup t.connection_string s.capabilities_by_target) s

  -- The body of the loop.
  unfoldable pub gate : Item → Gating → Loop
  gate item s = gate_on item item.required item.target s

  unfoldable pub gate_all : List Item → Gating → Loop
  gate_all [] s = ok s
  gate_all (item ∷ items) s = then_gate (gate_all items) (gate item s)

abbrev pub start : Gating
start = record { capabilities_by_target = []; kept = []; deselected = []; reasons = [] }

-- What runs in the first phase: under xdist, not the `no_parallel` tests.
unfoldable pub parallel_items : Bool → List Item → List Item
parallel_items is_xdist items = if is_xdist then select (λ i. not i.no_parallel) items else items
