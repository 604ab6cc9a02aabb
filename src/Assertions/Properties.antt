-- ===== src/Assertions/Properties.antt =====
-- Property checks of whole results (`assertProperties` of framework/assertions.py).
pub mod Satisfied
use functional_tests.Base.{
  ℕ, zero, suc, String, ◌<>◌, Bool, true, false, not, Option, none, some, List, [], ◌∷◌, ◌++◌, ◌==◌,
  nat_eq, string_eq, length, if◌then◌else◌,
}
use functional_tests.Bson.{Host, Value, atom, list, tuple, dict, Items, nil, cons}
use functional_tests.Checks.{Check, Verdict, check, length_items}
use functional_tests.Assertions.{Result, response, exception, Outcome, first_batch}
use functional_tests.Assertions.Paths.{Part, walk_path}

-- A dict of checks: a path with its check, or its list of checks, or a path with a dict of checks.
pub data Specs (A : Type 0) : Type 0 where
  end : Specs A
  checks : String → List (Check A) → Specs A → Specs A
  group : String → Specs A → Specs A → Specs A

-- A dict of checks for all documents, or `PerDoc`.
pub data Expected (A : Type 0) : Type 0 where
  broadcast : Specs A → Expected A
  per_doc : List (Specs A) → Expected A

-- The paths of the failures, or an exception of a check.
pub data Run : Type 0 where
  failures : List String → Run
  raised : Run

-- f"{prefix}.{path}" if prefix else path
abbrev pub full_path : String → String → String
full_path prefix path = if prefix == "" then path else prefix <> ("." <> path)

abbrev pub and_also : Run → Run → Run
and_also raised r = raised
and_also (failures fs) raised = raised
and_also (failures fs) (failures gs) = failures (fs ++ gs)

abbrev pub noted : String → Verdict → Run
noted path Verdict.passed = failures []
noted path Verdict.failed = failures (path ∷ [])
noted path Verdict.raised = raised

abbrev pub outcome_of : Run → Outcome
outcome_of raised = Outcome.broken
outcome_of (failures []) = Outcome.passed
outcome_of (failures (f ∷ fs)) = Outcome.assertion_error "PROPERTY_MISMATCH"

abbrev pub repeat : {B : Type 0} → ℕ → B → List B
repeat zero b = []
repeat (suc n) b = b ∷ repeat n b

-- `parts path` is `path.split(".")`.
module _ {A : Type 0} (H : Host A) (le lt : Value A → Value A → Option Bool)
    (parts : String → List Part) where
  -- `_walk_path`
  unfoldable pub walk : Value A → String → Option (Value A)
  walk doc path = if path == "" then some doc else walk_path (parts path) doc

  -- The checks of one path, on the value there.
  unfoldable pub run_list : Option (Value A) → String → List (Check A) → Run
  run_list actual path [] = failures []
  run_list actual path (c ∷ cs) =
      and_also (noted path (check H le lt c actual)) (run_list actual path cs)

  -- `_run_checks`
  unfoldable pub run_checks : Value A → Specs A → String → Run
  unfolding run_list walk
  run_checks doc end prefix = failures []
  run_checks doc (checks path cs rest) prefix =
      let full = full_path prefix path in
      and_also (run_list (walk doc full) full cs) (run_checks doc rest prefix)
  run_checks doc (group path inner rest) prefix =
      and_also (run_checks doc inner (full_path prefix path)) (run_checks doc rest prefix)

  -- The loop over the `zip` of documents and specs.
  unfoldable pub run_docs : Items A → List (Specs A) → Run
  run_docs nil specs = failures []
  run_docs (cons doc docs) [] = failures []
  run_docs (cons doc docs) (s ∷ specs) = and_also (run_checks doc s "") (run_docs docs specs)

  abbrev pub on_docs : Items A → Expected A → Outcome
  on_docs docs (broadcast s) = outcome_of (run_docs docs (repeat (length_items docs) s))
  on_docs docs (per_doc specs) =
      if length specs == length_items docs
      then outcome_of (run_docs docs specs)
      else Outcome.assertion_error "DOC_COUNT_MISMATCH"

  abbrev pub on_first_batch : Option (Value A) → Expected A → Outcome
  on_first_batch (some (list nil)) expected = Outcome.assertion_error "NO_DOCUMENTS"
  on_first_batch (some (list (cons doc docs))) expected = on_docs (cons doc docs) expected
  on_first_batch _ expected = Outcome.broken

  unfoldable pub assert_properties : Bool → Result A → Expected A → Outcome
  assert_properties raw_res (exception infra c m) expected =
      if infra then Outcome.reraised else Outcome.assertion_error "UNEXPECTED_ERROR"
  assert_properties raw_res (response v) expected =
      if raw_res then on_docs (cons v nil) expected else on_first_batch (first_batch v) expected
