-- ===== src/Session/Gate/Total.antt =====
-- When the gate ends without an exception (`pytest_collection_modifyitems`).
use mathlib.Core.Path.{subst, sym}
use functional_tests.Base.{
  String, ◌≡◌, refl, Bool, true, not, Option, none, some, List, [], ◌∷◌, arith, contains, string_eq,
  all, select, Option-cases, inl, inr,
}
use functional_tests.Base.Dict.{Dict, keys, lookup}
use functional_tests.Preconditions.{
  capabilities_known, without, Detected, capabilities, unmet, unmet_requirements, satisfied,
}
use functional_tests.Session.Gate.{
  gate_on, Target, Item, Gating, Loop, ok, sort_item, gate, gate_all,
}

abbrev pub required_names : Option (Dict String Bool) → List String
required_names none = []
required_names (some required) = keys required

-- The capabilities that an item asks for are all known.
abbrev pub AllKnown : List Item → Type 0
AllKnown [] = Unit
AllKnown (item ∷ items) =
    (all (contains capabilities_known) (required_names item.required) ≡ true) × AllKnown items

none_unknown :
    (known names : List String) → all (contains known) names ≡ true → without names known ≡ []
unfolding without
none_unknown known [] h = refl
none_unknown known (n ∷ names) h = ground (arith, none_unknown known names)

abbrev Ends : Loop → Type 0
Ends l = (s : Gating) × (l ≡ ok s)

sort_item-unmet :
    (item : Item) (missing : Dict String Bool) (s : Gating)
    → Ends (sort_item item (unmet missing) s)
sort_item-unmet item [] s = (_, refl)
sort_item-unmet item (r ∷ rs) s = (_, refl)

unmet_of_known :
    (required : Dict String Bool) (names : List String)
    → all (contains capabilities_known) (keys required) ≡ true
    → unmet_requirements capabilities_known required names
      ≡ unmet (select (λ r. not (satisfied names r)) required)
unfolding unmet_requirements
unmet_of_known required names h = ground (arith, none_unknown capabilities_known (keys required) h)

sort_item-Ends :
    (item : Item) (required : Dict String Bool) (names : List String) (s : Gating)
    → all (contains capabilities_known) (keys required) ≡ true
    → Ends (sort_item item (unmet_requirements capabilities_known required names) s)
sort_item-Ends item required names s h =
    subst (λ u. Ends (sort_item item u s)) (sym (unmet_of_known required names h))
      (sort_item-unmet item _ s)

module _ (detect : Target → Detected)
    (detects : (t : Target) → (names : List String) × (detect t ≡ capabilities names)) where
  gate_on-Ends :
      (item : Item) (required : Option (Dict String Bool)) (target : Option Target) (s : Gating)
      → all (contains capabilities_known) (required_names required) ≡ true
      → Ends (gate_on detect item required target s)
  gate_on-Ends item none target s h = (_, refl)
  gate_on-Ends item (some []) target s h = (_, refl)
  gate_on-Ends item (some (r ∷ rs)) none s h = (_, refl)
  gate_on-Ends item (some (r ∷ rs)) (some t) s h =
      elim (Option-cases (lookup t.connection_string s.capabilities_by_target)) [
        | inl e ↦
            let (names, found) = detects t in rw (e, found) (sort_item-Ends item (r ∷ rs) names _ h)
        | inr (names, e) ↦ rw e (sort_item-Ends item (r ∷ rs) names s h)
      ]

  -- If the capabilities of every target can be told, and the items ask for known capabilities
  -- alone, the loop ends without an exception.
  pub gate_all-total :
      (items : List Item) (s : Gating)
      → AllKnown items
      → (t : Gating) × (gate_all detect items s ≡ ok t)
  unfolding gate_all
  gate_all-total [] s known = (s, refl)
  gate_all-total (item ∷ items) s (here, known) =
      let (t, first) = gate_on-Ends item item.required item.target s here in
      let step : gate detect item s ≡ ok t = unfold gate in first in
      rw step (gate_all-total items t known)
