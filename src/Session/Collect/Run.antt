-- ===== src/Session/Collect/Run.antt =====
-- Which items run after the hook, and that none is lost.
use mathlib.Core.List.{Permᴰ, append-nil, append_assoc}
use mathlib.Core.List.Permᴰ
use functional_tests.Base.{
  String, Option, if◌then◌else◌, ◌≡◌, refl, sym, ap, subst, ◌∙◌, Bool, true, false, not, List, [],
  ◌∷◌, ◌++◌, map, select, arith,
}
use functional_tests.Base.Perm.{Permᴰ-select}
use functional_tests.Preconditions.{Detected, capabilities}
use functional_tests.Session.Gate.{Target, Item, start, parallel_items}
use functional_tests.Session.Gate.Partition.{runs, gate_all_lem}
use functional_tests.Session.Gate.Total.{AllKnown, gate_all-total}
use functional_tests.Session.Validate.{Files, exits}
use functional_tests.Base.Dict.{Dict}
use functional_tests.Session.Sidecar.{Pc}
use functional_tests.Session.Validate as Validate
use functional_tests.Session.Collect.{
  Collection, done, unwritten, raises, call_if_any, kept_if_any, left_to_phase_2, after_gate,
  on_gate, modify_items,
}

abbrev pub flat : List (List Item) → List Item
flat [] = []
flat (items ∷ calls) = items ++ flat calls

flat-calls : (a b : List Item) → flat (call_if_any a ++ call_if_any b) ≡ a ++ b
flat-calls [] [] = refl
flat-calls [] (j ∷ b) = append-nil (j ∷ b)
flat-calls (i ∷ a) [] = refl
flat-calls (i ∷ a) (j ∷ b) = ap (λ xs. (i ∷ a) ++ xs) (append-nil (j ∷ b))

-- Where nothing passes a test, all pass the opposite one.
select_all :
    (p q : Item → Bool)
    → ((i : Item) → q i ≡ not (p i))
    → (items : List Item) → select q items ≡ []
    → select p items ≡ items
select_all p q opposite [] h = refl
select_all p q opposite (i ∷ items) h = ground (arith, opposite i, h, select_all p q opposite items)

kept_if_any-select :
    (deselected items kept : List Item)
    → (deselected ≡ [] → kept ≡ items)
    → kept_if_any deselected items kept ≡ kept
kept_if_any-select [] items kept h = sym (h refl)
kept_if_any-select (i ∷ deselected) items kept h = refl

module _ (detect : Target → Detected) (files : Files) (rest_of : Item → Validate.Item)
    (write : Dict String (Dict String Bool) → Option Pc) where
  phase_1_items :
      (is_xdist : Bool) (runnable : List Item)
      → kept_if_any
          (left_to_phase_2 is_xdist runnable)
          runnable
          (select (λ (i : Item). not i.no_parallel) runnable)
        ≡ parallel_items is_xdist runnable
  unfolding parallel_items
  phase_1_items false runnable = refl
  phase_1_items true runnable =
      kept_if_any-select (select (λ (i : Item). i.no_parallel) runnable) runnable
        (select (λ (i : Item). not i.no_parallel) runnable)
        (select_all (λ i. not i.no_parallel) (λ i. i.no_parallel) (λ i. ground arith) runnable)

  phase_1_whole :
      (is_xdist : Bool) (runnable : List Item)
      → Permᴰ (parallel_items is_xdist runnable ++ left_to_phase_2 is_xdist runnable) runnable
  unfolding parallel_items
  phase_1_whole false runnable = Permᴰ.append-nil runnable
  phase_1_whole true runnable = Permᴰ-select (λ i. i.no_parallel) runnable

  -- What is reported and what is left are together the whole.
  all_reported :
      (is_xdist : Bool) (runnable deselected collected : List Item)
      → Permᴰ (deselected ++ runnable) collected
      → Permᴰ
          (parallel_items is_xdist runnable ++ (deselected ++ left_to_phase_2 is_xdist runnable))
          collected
  all_reported is_xdist runnable deselected collected whole =
      let first = parallel_items is_xdist runnable in
      let second = left_to_phase_2 is_xdist runnable in
      Permᴰ.trans (Permᴰ.append_comm first (deselected ++ second)) (
        subst (λ xs. Permᴰ xs collected) (sym (append_assoc deselected second first))
          (Permᴰ.trans (Permᴰ.append_left deselected (Permᴰ.append_comm second first))
            (Permᴰ.trans (Permᴰ.append_left deselected (phase_1_whole is_xdist runnable)) whole)))

  -- If the capabilities of every target can be told, alike for targets with one connection string,
  -- and the items ask for known capabilities alone, the hook ends by an exception exactly if `unlink`
  -- raises in the handler of the sidecar's write. Else the items that run on their target are left,
  -- under xdist but for the `no_parallel` ones; every other item is reported as deselected, once; and
  -- the session ends exactly if the validation does not accept the items that are left.
  pub modify_items_lem :
      ((t : Target) → (names : List String) × (detect t ≡ capabilities names))
      → ((a b : Target) → a.connection_string ≡ b.connection_string → detect a ≡ detect b)
      → (is_xdist : Bool) (collected : List Item) → AllKnown collected
      → (c : Collection) × (modify_items detect files rest_of write is_xdist collected
          ≡ (if raises (write c.reasons) then unwritten else done c))
        × (c.items ≡ parallel_items is_xdist (select (runs detect) collected))
        × Permᴰ (c.items ++ flat c.reported) collected
        × (c.ended
            ≡ exits files (map rest_of (parallel_items is_xdist (select (runs detect) collected))))
  unfolding modify_items
  modify_items_lem detects same is_xdist collected known =
      let (s, ended) = gate_all-total detect detects collected start known in
      let (kept, dropped) = gate_all_lem detect same collected s ended in
      let runnable = kept_if_any s.deselected collected s.kept in
      let settled : runnable ≡ select (runs detect) collected =
        kept_if_any-select s.deselected collected s.kept (λ e.
          kept
          ∙ select_all (runs detect) (λ i. not (runs detect i)) (λ i. refl) collected
              (sym dropped ∙ e))
        ∙ kept in
      let left = phase_1_items is_xdist runnable in
      let remaining = left ∙ ap (parallel_items is_xdist) settled in
      let whole : Permᴰ (s.deselected ++ runnable) collected =
        subst (λ xs. Permᴰ (xs ++ runnable) collected) (sym dropped)
          (subst (λ xs. Permᴰ (select (λ i. not (runs detect i)) collected ++ xs) collected)
            (sym settled) (Permᴰ-select (runs detect) collected)) in
      (
        after_gate detect files rest_of write is_xdist collected s,
        ap (on_gate detect files rest_of write is_xdist collected) ended,
        remaining,
        subst
            (λ xs.
              Permᴰ
                (xs
                  ++ flat
                      (call_if_any s.deselected ++ call_if_any (left_to_phase_2 is_xdist runnable)))
                collected)
            (sym left)
            (subst (λ xs. Permᴰ (parallel_items is_xdist runnable ++ xs) collected)
              (sym (flat-calls s.deselected (left_to_phase_2 is_xdist runnable)))
              (all_reported is_xdist runnable s.deselected collected whole)),
        ap (λ xs. exits files (map rest_of xs)) remaining,
      )
