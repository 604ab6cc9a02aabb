-- ===== src/Session/Collect.antt =====
-- `pytest_collection_modifyitems` of conftest.py as a whole: the gate, the sidecar's reasons, the
-- items that are left to the second phase, and the validation.
pub mod Run
use functional_tests.Base.{
  String, Option, none, some, Bool, true, false, not, List, [], ◌∷◌, ◌++◌, map, select,
  if◌then◌else◌,
}
use functional_tests.Base.Dict.{Dict}
use functional_tests.Preconditions.{Error, Detected}
use functional_tests.Session.Gate.{Target, Item, Gating, Loop, ok, gate_all, start}
use functional_tests.Session.Validate.{Files, exits}
use functional_tests.Session.Sidecar.{Pc, raised}
use functional_tests.Session.Validate as Validate

-- What the hook leaves: the items, the calls of `pytest_deselected`, the reasons that the sidecar is
-- written with, and whether `pytest.exit` ends the session.
pub record Collection : Type 0 where
  pub items : List Item
  pub reported : List (List Item)
  pub reasons : Dict String (Dict String Bool)
  pub ended : Bool

-- An exception of the gate leaves the hook, and one of `unlink` in the handler of the sidecar's write.
pub data Hook : Type 0 where
  done : Collection → Hook
  error : Error → Hook
  unwritten : Hook

-- How the write of the sidecar has ended: `none` if there is none to write, or the end that the process
-- has come to in `Session.Sidecar`.
abbrev pub raises : Option Pc → Bool
raises (some raised) = true
raises _ = false

-- `if deselected: config.hook.pytest_deselected(items=deselected)`
abbrev pub call_if_any : List Item → List (List Item)
call_if_any [] = []
call_if_any (i ∷ items) = (i ∷ items) ∷ []

-- `items[:] = kept` under the same condition.
abbrev pub kept_if_any : List Item → List Item → List Item → List Item
kept_if_any [] items kept = items
kept_if_any (_ ∷ _) items kept = kept

abbrev pub left_to_phase_2 : Bool → List Item → List Item
left_to_phase_2 is_xdist items = if is_xdist then select (λ (i : Item). i.no_parallel) items else []

-- `write` tells how the write of the given reasons ends.
module _ (detect : Target → Detected) (files : Files) (rest_of : Item → Validate.Item)
    (write : Dict String (Dict String Bool) → Option Pc) where
  -- `rest_of` are the attributes of an item that the validation reads.
  abbrev pub after_gate : Bool → List Item → Gating → Collection
  after_gate is_xdist collected s =
      let runnable = kept_if_any s.deselected collected s.kept in
      let deselected = left_to_phase_2 is_xdist runnable in
      let items =
        kept_if_any deselected runnable (select (λ (i : Item). not i.no_parallel) runnable) in
      record {
        items = items;
        reported = call_if_any s.deselected ++ call_if_any deselected;
        reasons = s.reasons;
        ended = exits files (map rest_of items);
      }

  abbrev pub on_gate : Bool → List Item → Loop → Hook
  on_gate is_xdist collected (Loop.raised e) = error e
  on_gate is_xdist collected (ok s) =
      if raises (write s.reasons) then unwritten else done (after_gate is_xdist collected s)

  unfoldable pub modify_items : Bool → List Item → Hook
  unfolding gate_all exits
  modify_items is_xdist collected = on_gate is_xdist collected (gate_all detect collected start)
