-- ===== src/Analyzer/Report/Phases.antt =====
-- Which phase `failing_phase_info` picks.
use functional_tests.Base.{◌≡◌, ◌⊎◌, Bool, Option, none, some, List, [], ◌∷◌, arith, any}
use functional_tests.Analyzer.Report.{Phase, TestEntry, phases, has_outcome, failing_phase_info}

abbrev pub failed : Option Phase → Bool
failed p = has_outcome "failed" p

abbrev pub Among : Phase → List (Option Phase) → Type 0
Among p [] = ⊥
Among p (q ∷ ps) = (q ≡ some p) ⊎ Among p ps

-- The phase that is reported is one of the test's, unless it has none, and it is marked failed
-- exactly when some phase of the test is.
failing_phase_info_lem :
    (t : TestEntry)
    → (failed (some (failing_phase_info t)) ≡ any failed (phases t))
      × (Among (failing_phase_info t) (phases t)
          ⊎ (t.call ≡ none) × (t.setup ≡ none) × (t.teardown ≡ none))
unfolding failing_phase_info has_outcome
failing_phase_info_lem t = (ground arith, ground arith)
