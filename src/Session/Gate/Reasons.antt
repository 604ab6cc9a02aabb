-- ===== src/Session/Gate/Reasons.antt =====
-- The reasons that the gate records, and what the analyzer counts of them
-- (`pytest_collection_modifyitems` of conftest.py, `group_by_feature` of analyzer.py).
use functional_tests.Base.{
  ◌+◌, String, ◌≡◌, ◌⊎◌, inl, inr, refl, sym, ap, subst, ◌∙◌, Bool, true, false, not, ◌||◌, Option,
  none, some, List, [], ◌∷◌, ◌++◌, map, arith, contains, string_eq, all, count, select, zero_add,
  ◌==◌,
}
use functional_tests.Base.Dict.{Dict, keys, lookup, insert}
use functional_tests.Base.Text.{Text, codes}
use functional_tests.Preconditions.{
  capabilities_known, Detected, capabilities, Unmet, unmet, unmet_requirements,
}
use functional_tests.Analyzer.Report.{Outcome}
use functional_tests.Analyzer.Feature.{
  deselected, Named, same_key, outcome_to_key, feature_path, group_by_feature,
}
use functional_tests.Analyzer.Feature.Counts.{
  count_at, counts_test, counts_deselected, count_at-group_by_feature, leads_to,
}
use functional_tests.Session.Merge.Sums.{Distinct}
use functional_tests.Session.Gate.{
  gate_on, with_target, Target, Item, Gating, ok, sort_item, with_detected, gate, gate_all, start,
}
use functional_tests.Session.Gate.Partition.{then_gate-ok, runs, gate_all_lem}

abbrev pub nodeids : List Item → List String
nodeids items = map (λ (i : Item). i.nodeid) items

-- An item is kept, which records nothing, or deselected with a reason.
abbrev Recorded : Item → Gating → Gating → Type 0
Recorded item s t =
    ((t.reasons ≡ s.reasons) × (t.deselected ≡ s.deselected))
    ⊎ ((r : Dict String Bool) × (t.reasons ≡ insert item.nodeid r s.reasons)
        × (t.deselected ≡ s.deselected ++ item ∷ []))

sort_item-Recorded :
    (item : Item) (u : Unmet) (s t : Gating) → sort_item item u s ≡ ok t → Recorded item s t
sort_item-Recorded item (Unmet.error e) s t h = absurd (ground (arith, h))
sort_item-Recorded item (unmet []) s t h = inl (cc h, cc h)
sort_item-Recorded item (unmet (r ∷ rs)) s t h = inr (r ∷ rs, cc h, cc h)

with_detected-Recorded :
    (item : Item) (required : Dict String Bool) (target : Target) (d : Detected) (s t : Gating)
    → with_detected item required target d s ≡ ok t
    → Recorded item s t
with_detected-Recorded item required target (Detected.error e) s t h = absurd (ground (arith, h))
with_detected-Recorded item required target (capabilities names) s t h =
    sort_item-Recorded item (unmet_requirements capabilities_known required names)
      (record s {
        capabilities_by_target = insert target.connection_string names s.capabilities_by_target;
      })
      t h

-- No item has one of the names.
abbrev apart_from : List String → Item → Bool
apart_from names item = not (contains names item.nodeid)

contains-append :
    (xs : List String) (k j : String) → contains (xs ++ k ∷ []) j ≡ (contains xs j || k == j)
contains-append [] k j = ground arith
contains-append (x ∷ xs) k j = ground (arith, contains-append xs k j)

apart_from-append :
    (items : List Item) (names : List String) (k : String)
    → all (apart_from names) items ≡ true
    → contains (nodeids items) k ≡ false
    → all (apart_from (names ++ k ∷ [])) items ≡ true
apart_from-append [] names k h g = refl
apart_from-append (i ∷ items) names k h g =
    ground (arith, contains-append names k i.nodeid, apart_from-append items names k)

keys-insert :
    {V : Type 0} (k : String) (v : V) (d : Dict String V)
    → contains (keys d) k ≡ false
    → keys (insert k v d) ≡ keys d ++ k ∷ []
keys-insert k v [] h = refl
keys-insert k v ((j, w) ∷ d) h = ground (arith, keys-insert k v d)

map-snoc :
    (items : List Item) (item : Item)
    → nodeids (items ++ item ∷ []) ≡ nodeids items ++ item.nodeid ∷ []
map-snoc [] item = refl
map-snoc (i ∷ items) item = ap (λ xs. i.nodeid ∷ xs) (map-snoc items item)

module _ (detect : Target → Detected) where
  gate_on-Recorded :
      (item : Item) (required : Option (Dict String Bool)) (target : Option Target) (s t : Gating)
      → gate_on detect item required target s ≡ ok t
      → Recorded item s t
  gate_on-Recorded item none target s t h = inl (cc h, cc h)
  gate_on-Recorded item (some []) target s t h = inl (cc h, cc h)
  gate_on-Recorded item (some (r ∷ rs)) none s t h = inl (cc h, cc h)
  gate_on-Recorded item (some (r ∷ rs)) (some target) s t h =
      go (lookup target.connection_string s.capabilities_by_target) h
    where
      go :
          (found : Option (List String))
          → with_target detect item (r ∷ rs) target found s ≡ ok t
          → Recorded item s t
      go none h' = with_detected-Recorded item (r ∷ rs) target (detect target) s t h'
      go (some names) h' =
          sort_item-Recorded item (unmet_requirements capabilities_known (r ∷ rs) names) s t h'

  -- The reasons name the deselected items, in their order.
  abbrev IsNamed : Gating → Type 0
  IsNamed s = keys s.reasons ≡ nodeids s.deselected

  -- One item, and what is left to do.
  Recorded-step :
      (item : Item) (items : List Item) (s t : Gating)
      → Recorded item s t
      → all (apart_from (keys s.reasons)) (item ∷ items) ≡ true
      → contains (nodeids items) item.nodeid ≡ false
      → IsNamed s
      → (all (apart_from (keys t.reasons)) items ≡ true) × IsNamed t
  Recorded-step item items s t (inl (same, same')) fresh distinct named =
      (rw same (ground (arith, fresh)), ap keys same ∙ named ∙ ap nodeids (sym same'))
  Recorded-step item items s t (inr (r, more, more')) fresh distinct named =
      let listed : keys t.reasons ≡ keys s.reasons ++ item.nodeid ∷ [] =
        ap keys more ∙ keys-insert item.nodeid r s.reasons (ground (arith, fresh)) in
      (
        rw listed
            (apart_from-append items (keys s.reasons) item.nodeid (ground (arith, fresh)) distinct),
        listed
            ∙ ap (λ names. names ++ item.nodeid ∷ []) named
            ∙ sym (map-snoc s.deselected item)
            ∙ ap nodeids (sym more'),
      )

  gate_all-keys :
      (items : List Item) (s t : Gating)
      → gate_all detect items s ≡ ok t
      → Distinct (nodeids items)
      → all (apart_from (keys s.reasons)) items ≡ true
      → IsNamed s
      → IsNamed t
  unfolding gate_all gate
  gate_all-keys [] s t h distinct fresh named = subst IsNamed {x = s} {y = t} (cc h) named
  gate_all-keys (item ∷ items) s t h (apart, distinct) fresh named =
      let (mid, first, rest) = then_gate-ok (gate_all detect items) (gate detect item s) t h in
      let (fresh', named') =
        Recorded-step item items s mid (gate_on-Recorded item item.required item.target s mid first)
          fresh apart named in
      gate_all-keys items mid t rest distinct fresh' named'

-- The sidecar's dict, whose keys are texts.
abbrev pub text_keys : Dict String Bool → Dict Text Bool
text_keys [] = []
text_keys ((name, value) ∷ required) = (codes name, value) ∷ text_keys required

abbrev pub texts : Dict String (Dict String Bool) → Dict Text (Dict Text Bool)
texts [] = []
texts ((nodeid, missing) ∷ reasons) = (codes nodeid, text_keys missing) ∷ texts reasons

abbrev pub is_below : List Text → String → Bool
is_below path nodeid = leads_to path (feature_path (codes nodeid))

counted_by_keys :
    (path : List Text) (reasons : Dict String (Dict String Bool))
    → count (counts_deselected deselected path) (texts reasons)
      ≡ count (is_below path) (keys reasons)
unfolding same_key
counted_by_keys path [] = refl
counted_by_keys path ((nodeid, missing) ∷ reasons) = ground (arith, counted_by_keys path reasons)

not_deselected : (o : Outcome) → same_key deselected (outcome_to_key o) ≡ false
unfolding same_key
not_deselected Outcome.pass = refl
not_deselected Outcome.fail = refl
not_deselected Outcome.error = refl
not_deselected Outcome.skipped = refl
not_deselected Outcome.xfail = refl
not_deselected Outcome.xpass = refl

no_test_deselected :
    (path : List Text) (tests : List Named) → count (counts_test deselected path) tests ≡ 0
unfolding same_key
no_test_deselected path [] = refl
no_test_deselected path ((name, outcome) ∷ tests) =
    ground (arith, not_deselected outcome, no_test_deselected path tests)

apart_from_none : (items : List Item) → all (apart_from []) items ≡ true
apart_from_none [] = refl
apart_from_none (i ∷ items) = apart_from_none items

-- The analyzer counts as deselected, at each node of the feature tree, the items below it that the
-- gate left out because their target does not meet what they require, where the items have distinct
-- identifiers, the loop ends and targets with one connection string have the same capabilities.
pub count_at-gate_all :
    (detect : Target → Detected)
    → ((a b : Target) → a.connection_string ≡ b.connection_string → detect a ≡ detect b)
    → (items : List Item) (s : Gating) → gate_all detect items start ≡ ok s
    → Distinct (nodeids items)
    → (tests : List Named) (path : List Text)
    → count_at deselected path (group_by_feature tests (texts s.reasons))
      ≡ count (is_below path) (nodeids (select (λ i. not (runs detect i)) items))
count_at-gate_all detect same items s ended distinct tests path =
    let named = gate_all-keys detect items start s ended distinct (apart_from_none items) refl in
    let (_, left_out) = gate_all_lem detect same items s ended in
    count_at-group_by_feature deselected path tests (texts s.reasons)
    ∙ ap (λ n. n + count (counts_deselected deselected path) (texts s.reasons))
        (no_test_deselected path tests)
    ∙ zero_add (count (counts_deselected deselected path) (texts s.reasons))
    ∙ counted_by_keys path s.reasons
    ∙ ap (count (is_below path)) (named ∙ ap nodeids left_out)
