-- ===== src/Content.antt =====
-- What a report says, apart from how it is drawn (compatibility/result_analyzer/report_content.py).
pub mod Sections
pub mod Rates
use functional_tests.Base.{
  ℕ, zero, suc, ◌+◌, ◌-◌, ◌*◌, ◌/◌, String, Bool, true, false, ◌||◌, Option, none, some, List, [],
  ◌∷◌, ◌++◌, ◌==◌, nat_eq, text_eq, length, take, ltb, leb, select, if◌then◌else◌,
}
use functional_tests.Base.Dict.{Dict}
use functional_tests.Base.Text.{Text, codes}
use functional_tests.Analyzer.Report.{Outcome}
use functional_tests.Analyzer.Reconcile.{Counts}
use functional_tests.Analyzer.Results.{TestDetail, Analysis}

-- `VERDICT_PASS`, `VERDICT_FAIL`
pub data Verdict : Type 0 where
  pass fail : Verdict

unfoldable pub determine_verdict : Counts → Verdict × String
determine_verdict c =
    if ltb 0 c.xpassed
    then (fail, "results may be invalid — strict xfail not applied")
    else if leb (c.passed + c.failed + c.error) 0
    then (fail, "no tests ran")
    else if ltb 0 c.failed || ltb 0 c.error
    then (fail, "tests failed")
    else (pass, "")

abbrev pub needs_attention_cap : ℕ
needs_attention_cap = 25

abbrev pub is_bad : Outcome → Bool
is_bad Outcome.fail = true
is_bad Outcome.error = true
is_bad _ = false

abbrev pub wants_attention : TestDetail → Bool
wants_attention t = is_bad t.outcome

unfoldable pub needs_attention : Analysis → List TestDetail
needs_attention a = select wants_attention a.tests

-- `test.get("failure_type", "UNKNOWN")`
abbrev type_or_unknown : Option Text → Text
type_or_unknown none = codes "UNKNOWN"
type_or_unknown (some t) = t

abbrev pub failure_type : TestDetail → Text
failure_type t = type_or_unknown t.failure_type

abbrev pub Groups : Type 0
Groups = Dict Text (List TestDetail)

-- `grouped.setdefault(ft, []).append(test)`
unfoldable pub add_to_group : Text → TestDetail → Groups → Groups
add_to_group ft t [] = (ft, t ∷ []) ∷ []
add_to_group ft t ((k, ts) ∷ groups) =
    if ft == k then (k, ts ++ t ∷ []) ∷ groups else (k, ts) ∷ add_to_group ft t groups

unfoldable pub group_all : List TestDetail → Groups → Groups
unfolding add_to_group
group_all [] groups = groups
group_all (t ∷ ts) groups = group_all ts (add_to_group (failure_type t) t groups)

unfoldable pub group_needs_attention : Analysis → Groups
unfolding group_all needs_attention
group_needs_attention a = group_all (needs_attention a) []

unfoldable pub cap_items {ℓ} : {A : Type ℓ} → List A → ℕ → List A × ℕ
cap_items items cap =
    if leb (length items) cap then (items, 0) else (take cap items, length items - cap)

-- An entry of the known gaps or of the skipped tests.
pub record Entry : Type 0 where
  pub name : Text
  pub reason : Text

abbrev reason_or_empty : Option Text → Text
reason_or_empty none = []
reason_or_empty (some r) = r

abbrev gap : TestDetail → Outcome → List Entry
gap t Outcome.xfail = record { name = t.name; reason = reason_or_empty t.xfail_reason } ∷ []
gap t _ = []

abbrev skip : TestDetail → Outcome → List Entry
skip t Outcome.skipped = record { name = t.name; reason = reason_or_empty t.skip_reason } ∷ []
skip t _ = []

unfoldable pub gaps_of : List TestDetail → List Entry
gaps_of [] = []
gaps_of (t ∷ ts) = gap t t.outcome ++ gaps_of ts

unfoldable pub skips_of : List TestDetail → List Entry
skips_of [] = []
skips_of (t ∷ ts) = skip t t.outcome ++ skips_of ts

unfoldable pub known_gaps : Analysis → List Entry
unfolding gaps_of
known_gaps a = gaps_of a.tests

unfoldable pub skipped_tests : Analysis → List Entry
unfolding skips_of
skipped_tests a = skips_of a.tests

-- What `pass_rate` prints: a dash, "100%", or a percentage in tenths.
pub data PassRate : Type 0 where
  nothing_ran all_passed : PassRate
  tenths : ℕ → PassRate

unfoldable pub pass_rate : Counts → PassRate
pass_rate c =
    let bad = c.failed + c.error in
    let counted = c.passed + bad in
    if counted == 0
    then nothing_ran
    else if bad == 0
    then all_passed
    else tenths (c.passed * 1000 / counted)
