-- ===== src/Assertions/Properties/Satisfied.antt =====
-- `assertProperties` against a plain reading of the specs: every check, at its full path.
use Prim.Native.String.append
use std.Logic.{↔_sym, ↔_trans}
use functional_tests.Base.{
  ℕ, String, ◌<>◌, ◌≡◌, refl, ap, sym, ◌∙◌, ◌≢◌, ◌↔◌, Bool, true, false, Option, some, List, [],
  ◌∷◌, ◌++◌, arith, ◌==◌, nat_eq, string_eq, length, Bool-cases, inl, inr, if◌then◌else◌,
}
use functional_tests.Bson.{Host, Value, list, Items, nil, cons}
use functional_tests.Checks.{Check, Verdict, check, length_items}
use functional_tests.Assertions.{response, Outcome, first_batch}
use functional_tests.Assertions.Paths.{Part, and_then, walk_path-append}
use functional_tests.Assertions.Properties.{
  Specs, end, checks, group, broadcast, per_doc, Run, failures, raised, full_path, and_also, noted,
  outcome_of, walk, run_list, run_checks, run_docs, repeat, assert_properties,
}

-- The checks of a dict, each with its full path.
abbrev pub tagged : {A : Type 0} → String → List (Check A) → List (String × Check A)
tagged path [] = []
tagged path (c ∷ cs) = (path, c) ∷ tagged path cs

unfoldable pub listed : {A : Type 0} → String → Specs A → List (String × Check A)
listed prefix end = []
listed prefix (checks path cs rest) = tagged (full_path prefix path) cs ++ listed prefix rest
listed prefix (group path inner rest) = listed (full_path prefix path) inner ++ listed prefix rest

iff_pair : {P Q S T : Type 0} → P ↔ Q → S ↔ T → (P × S) ↔ (Q × T)
iff_pair (f, g) (h, k) = (λ (p, s). (f p, h s), λ (q, t). (g q, k t))

and_also-clean :
    (r q : Run) → (and_also r q ≡ failures []) ↔ ((r ≡ failures []) × (q ≡ failures []))
and_also-clean raised q = ground arith
and_also-clean (failures fs) raised = ground arith
and_also-clean (failures []) (failures gs) = ground arith
and_also-clean (failures (f ∷ fs)) (failures gs) = ground arith

noted-clean : (path : String) (v : Verdict) → (noted path v ≡ failures []) ↔ (v ≡ Verdict.passed)
noted-clean path v = ground arith

outcome_of-passed : (r : Run) → (outcome_of r ≡ Outcome.passed) ↔ (r ≡ failures [])
outcome_of-passed raised = ground arith
outcome_of-passed (failures []) = ground arith
outcome_of-passed (failures (f ∷ fs)) = ground arith

counted :
    (m n : ℕ) (r : Run)
    → ((if m == n then outcome_of r else Outcome.assertion_error "DOC_COUNT_MISMATCH")
        ≡ Outcome.passed)
      ↔ ((m ≡ n) × (r ≡ failures []))
counted m n r = ground (arith, outcome_of-passed r)

false-ne-true : false ≡ true → ⊥
false-ne-true h = cc

abbrev is_empty : String → Bool
is_empty String.[] = true
is_empty (String.◌∷◌ c s) = false

join-ne : (p q : String) → p ≢ "" → p <> q ≢ ""
join-ne String.[] q h = absurd (h refl)
join-ne (String.◌∷◌ c p) q h =
    λ e. absurd (false-ne-true (ap is_empty (sym (λ i. append.cons c p q i) ∙ e)))

module _ {A : Type 0} (H : Host A) (le lt : Value A → Value A → Option Bool)
    (parts : String → List Part) where
  -- Each check passes on the value at its path.
  abbrev pub AllPass : Value A → List (String × Check A) → Type 0
  AllPass doc [] = Unit
  AllPass doc ((path, c) ∷ cs) =
      (check H le lt c (walk H le lt parts doc path) ≡ Verdict.passed) × AllPass doc cs

  AllPass-append :
      (doc : Value A) (cs ds : List (String × Check A))
      → AllPass doc (cs ++ ds) ↔ (AllPass doc cs × AllPass doc ds)
  AllPass-append doc [] ds = (λ p. (tt, p), λ (_, p). p)
  AllPass-append doc ((path, c) ∷ cs) ds =
      let (f, g) = AllPass-append doc cs ds in
      (λ (p, ps). let (q, r) = f ps in ((p, q), r), λ ((p, q), r). (p, g (q, r)))

  run_list-clean :
      (doc : Value A) (path : String) (cs : List (Check A))
      → (run_list H le lt parts (walk H le lt parts doc path) path cs ≡ failures [])
        ↔ AllPass doc (tagged path cs)
  unfolding run_list
  run_list-clean doc path [] = (λ _. tt, λ _. refl)
  run_list-clean doc path (c ∷ cs) =
      ↔_trans (and_also-clean _ _) (iff_pair (noted-clean path _) (run_list-clean doc path cs))

  run_checks-clean :
      (doc : Value A) (specs : Specs A) (prefix : String)
      → (run_checks H le lt parts doc specs prefix ≡ failures [])
        ↔ AllPass doc (listed prefix specs)
  unfolding run_checks listed
  run_checks-clean doc end prefix = (λ _. tt, λ _. refl)
  run_checks-clean doc (checks path cs rest) prefix = ↔_trans (and_also-clean _ _) (
      ↔_trans
        (iff_pair (run_list-clean doc (full_path prefix path) cs)
          (run_checks-clean doc rest prefix))
        (↔_sym (AllPass-append doc _ _)))
  run_checks-clean doc (group path inner rest) prefix = ↔_trans (and_also-clean _ _) (
      ↔_trans
        (iff_pair (run_checks-clean doc inner (full_path prefix path))
          (run_checks-clean doc rest prefix))
        (↔_sym (AllPass-append doc _ _)))

  -- Each document passes the checks of its own dict, and there is one dict for each.
  abbrev pub EachPasses : Items A → List (Specs A) → Type 0
  EachPasses nil [] = Unit
  EachPasses (cons doc docs) (s ∷ specs) = AllPass doc (listed "" s) × EachPasses docs specs
  EachPasses _ _ = ⊥

  -- Every document passes the checks of the dict.
  abbrev pub EveryPasses : Items A → Specs A → Type 0
  EveryPasses nil s = Unit
  EveryPasses (cons doc docs) s = AllPass doc (listed "" s) × EveryPasses docs s

  run_docs-EveryPasses :
      (docs : Items A) (s : Specs A)
      → (run_docs H le lt parts docs (repeat (length_items docs) s) ≡ failures [])
        ↔ EveryPasses docs s
  unfolding run_docs
  run_docs-EveryPasses nil s = (λ _. tt, λ _. refl)
  run_docs-EveryPasses (cons doc docs) s =
      ↔_trans (and_also-clean _ _)
        (iff_pair (run_checks-clean doc s "") (run_docs-EveryPasses docs s))

  run_docs-EachPasses :
      (docs : Items A) (specs : List (Specs A))
      → ((length specs ≡ length_items docs) × (run_docs H le lt parts docs specs ≡ failures []))
        ↔ EachPasses docs specs
  unfolding run_docs
  run_docs-EachPasses nil [] = (λ _. tt, λ _. (refl, refl))
  run_docs-EachPasses nil (s ∷ specs) = (λ (l, _). cc, λ e. absurd e)
  run_docs-EachPasses (cons doc docs) [] = (λ (l, _). cc, λ e. absurd e)
  run_docs-EachPasses (cons doc docs) (s ∷ specs) =
      let (f, g) = run_docs-EachPasses docs specs in
      let (h, k) =
        and_also-clean (run_checks H le lt parts doc s "") (run_docs H le lt parts docs specs) in
      let (m, n) = run_checks-clean doc s "" in
      (
        λ (l, e). let (here, later) = h e in (m here, f (omega arith, later)),
        λ (p, ps). let (l, e) = g ps in (omega arith, k (n p, e)),
      )

  -- On the documents of a first batch, a dict of checks passes exactly if there is a document and
  -- every check of the dict, at its full path, passes on each of them.
  pub assert_properties_broadcast :
      (v : Value A) (docs : Items A) (s : Specs A)
      → first_batch v ≡ some (list docs)
      → (assert_properties H le lt parts false (response v) (broadcast s) ≡ Outcome.passed)
        ↔ ((docs ≢ nil) × EveryPasses docs s)
  unfolding assert_properties
  assert_properties_broadcast v nil s batch = rw batch (ground arith)
  assert_properties_broadcast v (cons doc docs) s batch =
      let (f, g) = ↔_trans (outcome_of-passed _) (run_docs-EveryPasses (cons doc docs) s) in
      rw batch (λ h. (λ e. cc, f h), λ (_, p). g p)

  -- On the documents of a first batch, a list of dicts passes exactly if there is a document, there
  -- are as many dicts as documents, and each document passes the checks of the dict in its place.
  assert_properties_per_doc :
      (v : Value A) (docs : Items A) (specs : List (Specs A))
      → first_batch v ≡ some (list docs)
      → (assert_properties H le lt parts false (response v) (per_doc specs) ≡ Outcome.passed)
        ↔ ((docs ≢ nil) × EachPasses docs specs)
  unfolding assert_properties
  assert_properties_per_doc v nil specs batch = rw batch (ground arith)
  assert_properties_per_doc v (cons doc docs) specs batch =
      let (f, g) =
        ↔_trans (counted (length specs) (length_items (cons doc docs)) _)
          (run_docs-EachPasses (cons doc docs) specs) in
      rw batch (λ h. (λ e. cc, f h), λ (_, p). g p)

  -- If the parts of two paths joined by a dot are those of the first and then those of the second,
  -- as `str.split` has it, then the value at a group's prefix joined with a nonempty path is what
  -- that path leads to from the value at the prefix, and absent where that value is.
  walk-full_path :
      ((p q : String) → parts (p <> ("." <> q)) ≡ parts p ++ parts q)
      → (doc : Value A) (prefix path : String) → path ≢ ""
      → walk H le lt parts doc (full_path prefix path)
        ≡ and_then (walk H le lt parts doc prefix) (λ v. walk H le lt parts v path)
  unfolding walk
  walk-full_path split doc prefix path some_path =
      let path_full : (path == "") ≡ false = ground arith in
      elim (Bool-cases (prefix == "")) [
        | inl empty ↦ rw (empty, path_full)
        | inr full ↦
            let joined_full : (prefix <> ("." <> path) == "") ≡ false =
              ground (arith, join-ne prefix ("." <> path)) in
            rw (full, path_full, joined_full, split)
              (walk_path-append (parts prefix) (parts path) doc)
      ]
