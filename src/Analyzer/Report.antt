-- ===== src/Analyzer/Report.antt =====
-- The entries of a pytest JSON report and their outcomes (analyzer.py).
pub mod Phases
use functional_tests.Base.{
  ℕ, String, ◌≡◌, refl, Bool, true, false, ◌||◌, Option, none, some, List, [], ◌∷◌, arith, ◌==◌,
  string_eq, any, if◌then◌else◌,
}
use functional_tests.Base.Text.{Text}

-- A JSON value under `longrepr`: a string, or anything else.
pub data Longrepr : Type 0 where
  text : Text → Longrepr
  other : Longrepr

-- One phase of a test. `message` is the text under `crash`.
pub record Phase : Type 0 where
  pub outcome : Option String
  pub message : Option Text
  pub longrepr : Option Longrepr

-- One entry of the report's `tests`. A phase that is missing or no dict is `none`.
pub record TestEntry : Type 0 where
  pub nodeid : Option Text
  pub outcome : Option String
  pub duration : Option ℕ
  pub call : Option Phase
  pub setup : Option Phase
  pub teardown : Option Phase
  pub xfail_reason : Option Text

pub data Outcome : Type 0 where
  pass fail error skipped xfail xpass : Outcome

pub Outcome-discrete : Discrete Outcome
Outcome-discrete = hlevel

abbrev is : Option String → String → Bool
is none s = false
is (some o) s = o == s

unfoldable pub categorize_outcome : TestEntry → Outcome
categorize_outcome t =
    if is t.outcome "passed"
    then pass
    else if is t.outcome "error"
    then error
    else if is t.outcome "skipped"
    then skipped
    else if is t.outcome "xfailed"
    then xfail
    else if is t.outcome "xpassed"
    then xpass
    else fail

-- `_PHASES`, as the phases of a test in that order.
abbrev pub phases : TestEntry → List (Option Phase)
phases t = t.call ∷ t.setup ∷ t.teardown ∷ []

unfoldable pub has_outcome : String → Option Phase → Bool
has_outcome s none = false
has_outcome s (some p) = is p.outcome s

unfoldable pub first_failed : List (Option Phase) → Option Phase
unfolding has_outcome
first_failed [] = none
first_failed (p ∷ ps) = let rest = first_failed ps in if has_outcome "failed" p then p else rest

unfoldable pub first_present : List (Option Phase) → Option Phase
first_present [] = none
first_present (none ∷ ps) = first_present ps
first_present (some p ∷ ps) = some p

abbrev pub no_phase : Phase
no_phase = record { outcome = none; message = none; longrepr = none }

abbrev pub or_first : Option Phase → Option Phase → Phase
or_first (some p) _ = p
or_first none (some p) = p
or_first none none = no_phase

unfoldable pub failing_phase_info : TestEntry → Phase
unfolding first_failed first_present
failing_phase_info t = or_first (first_failed (phases t)) (first_present (phases t))
