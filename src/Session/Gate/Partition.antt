-- ===== src/Session/Gate/Partition.antt =====
-- Which items the gate keeps and which it deselects (`pytest_collection_modifyitems`).
use mathlib.Core.List.{append-nil, append_assoc}
use functional_tests.Base.{
  String, ◌≡◌, refl, ap, ◌∙◌, Bool, true, false, not, Option, none, some, List, [], ◌∷◌, ◌++◌,
  arith, string_eq, select, Option-cases, inl, inr, if◌then◌else◌,
}
use functional_tests.Base.Dict.{Dict, lookup, insert, lookup-insert}
use functional_tests.Preconditions.{
  capabilities_known, Detected, capabilities, Unmet, unmet, unmet_requirements,
}
use functional_tests.Session.Gate.{
  gate_on, then_gate, Target, Item, Gating, Loop, ok, raised, keep, sort_item, with_detected, gate,
  gate_all, start,
}

abbrev pub is_met : Unmet → Bool
is_met (unmet []) = true
is_met _ = false

abbrev pub meets : Dict String Bool → Detected → Bool
meets required (Detected.error e) = false
meets required (capabilities names) = is_met (unmet_requirements capabilities_known required names)

-- One more item at the end of what was selected before.
extend :
    (p : Item → Bool) (item : Item) (items xs ys zs : List Item)
    → ys ≡ xs ++ (if p item then item ∷ [] else [])
    → zs ≡ ys ++ select p items
    → zs ≡ xs ++ select p (item ∷ items)
extend p item items xs ys zs h k =
    ground (arith, append-nil xs, append_assoc xs (item ∷ []) (select p items))

negate_if :
    (b : Bool) (item : Item) → (if b then [] else item ∷ []) ≡ (if not b then item ∷ [] else [])
negate_if true item = refl
negate_if false item = refl

pub then_gate-ok :
    (next : Gating → Loop) (l : Loop) (s : Gating)
    → then_gate next l ≡ ok s
    → (t : Gating) × (l ≡ ok t) × (next t ≡ ok s)
then_gate-ok next (ok t) s h = (t, refl, h)
then_gate-ok next (raised e) s h = cc

module _ (detect : Target → Detected) where
  abbrev runs_on : Option (Dict String Bool) → Option Target → Bool
  runs_on none target = true
  runs_on (some []) target = true
  runs_on (some (r ∷ rs)) none = true
  runs_on (some (r ∷ rs)) (some t) = meets (r ∷ rs) (detect t)

  -- Whether an item needs nothing, has no target, or has its requirements met by its own target.
  abbrev pub runs : Item → Bool
  runs item = runs_on item.required item.target

  -- What is cached for a connection string is what its targets have.
  abbrev IsCached : Dict String (List String) → Type 0
  IsCached cache =
      (t : Target) (names : List String)
      → lookup t.connection_string cache ≡ some names
      → detect t ≡ capabilities names

  -- What one round makes of a state, in which an item runs or not.
  abbrev Sorted : Bool → Item → Gating → Gating → Type 0
  Sorted run item s s' =
      (s'.kept ≡ s.kept ++ (if run then item ∷ [] else []))
      × (s'.deselected ≡ s.deselected ++ (if run then [] else item ∷ []))

  keep-Sorted :
      (item : Item) (s s' : Gating)
      → ok (keep item s) ≡ ok s'
      → Sorted true item s s' × (s'.capabilities_by_target ≡ s.capabilities_by_target)
  keep-Sorted item s s' h = ground (arith, append-nil s.deselected)

  sort_item-Sorted :
      (item : Item) (u : Unmet) (s s' : Gating)
      → sort_item item u s ≡ ok s'
      → Sorted (is_met u) item s s' × (s'.capabilities_by_target ≡ s.capabilities_by_target)
  sort_item-Sorted item (Unmet.error e) s s' h = cc
  sort_item-Sorted item (unmet []) s s' h = keep-Sorted item s s' h
  sort_item-Sorted item (unmet (r ∷ rs)) s s' h = ground (arith, append-nil s.kept)

  module _
      (same_target : (t u : Target)
        → t.connection_string ≡ u.connection_string
        → detect t ≡ detect u) where
    IsCached-insert :
        (cache : Dict String (List String)) (t : Target) (names : List String)
        → detect t ≡ capabilities names
        → IsCached cache
        → IsCached (insert t.connection_string names cache)
    IsCached-insert cache t names found cached u ns h = ground (
      arith,
      lookup-insert u.connection_string t.connection_string names cache,
      cached u ns,
      same_target u t,
    )

    with_detected-Sorted :
        (item : Item) (required : Dict String Bool) (t : Target) (d : Detected) (s s' : Gating)
        → detect t ≡ d
        → IsCached s.capabilities_by_target
        → with_detected item required t d s ≡ ok s'
        → Sorted (meets required d) item s s' × IsCached s'.capabilities_by_target
    with_detected-Sorted item required t (Detected.error e) s s' found cached h = cc
    with_detected-Sorted item required t (capabilities names) s s' found cached h =
        let (sorted, same) = sort_item-Sorted item _ _ s' h in
        (sorted, rw same (IsCached-insert s.capabilities_by_target t names found cached))

    gate_on-Sorted :
        (item : Item) (required : Option (Dict String Bool)) (target : Option Target)
        (s s' : Gating)
        → IsCached s.capabilities_by_target
        → gate_on detect item required target s ≡ ok s'
        → Sorted (runs_on required target) item s s' × IsCached s'.capabilities_by_target
    gate_on-Sorted item none target s s' cached h =
        let (sorted, same) = keep-Sorted item s s' h in (sorted, rw same cached)
    gate_on-Sorted item (some []) target s s' cached h =
        let (sorted, same) = keep-Sorted item s s' h in (sorted, rw same cached)
    gate_on-Sorted item (some (r ∷ rs)) none s s' cached h =
        let (sorted, same) = keep-Sorted item s s' h in (sorted, rw same cached)
    gate_on-Sorted item (some (r ∷ rs)) (some t) s s' cached h =
        elim (Option-cases (lookup t.connection_string s.capabilities_by_target)) [
          | inl e ↦ with_detected-Sorted item (r ∷ rs) t (detect t) s s' refl cached (rw e at h)
          | inr (names, e) ↦
              let (sorted, same) = sort_item-Sorted item _ s s' (rw e at h) in
              (rw (cached t names e) sorted, rw same cached)
        ]

    gate_all-runs :
        (items : List Item) (s s' : Gating)
        → IsCached s.capabilities_by_target
        → gate_all detect items s ≡ ok s'
        → (s'.kept ≡ s.kept ++ select runs items)
          × (s'.deselected ≡ s.deselected ++ select (λ i. not (runs i)) items)
    unfolding gate_all
    gate_all-runs [] s s' cached h = ground (arith, append-nil s.kept, append-nil s.deselected)
    gate_all-runs (item ∷ items) s s' cached h =
        let (t, first, rest) = then_gate-ok (gate_all detect items) (gate detect item s) s' h in
        let ((kept, dropped), still) =
          gate_on-Sorted item item.required item.target s t cached (unfold gate in first) in
        let (kept_rest, dropped_rest) = gate_all-runs items t s' still rest in
        (
          extend runs item items s.kept t.kept s'.kept kept kept_rest,
          extend (λ i. not (runs i)) item items s.deselected t.deselected s'.deselected
              (dropped ∙ ap (λ l. s.deselected ++ l) (negate_if (runs item) item)) dropped_rest,
        )

    -- If the loop ends, and targets with one connection string have the same capabilities, then
    -- the kept items are those that run on their target and the deselected ones the others, each
    -- in the order of collection.
    pub gate_all_lem :
        (items : List Item) (s : Gating)
        → gate_all detect items start ≡ ok s
        → (s.kept ≡ select runs items) × (s.deselected ≡ select (λ i. not (runs i)) items)
    gate_all_lem items s h = gate_all-runs items start s (λ t names e. cc) h
