-- ===== src/Analyzer/Results/Fields.antt =====
-- Which fields the analysis gives a test, by its outcome.
use functional_tests.Base.{◌≡◌, Bool, true, false, Option, none, some, arith, nat_eq, text_eq}
use functional_tests.Analyzer.Report.{
  TestEntry, Outcome, fail, error, skipped, xfail, categorize_outcome,
}
use functional_tests.Analyzer.Results.{detail}

abbrev pub is_some {ℓ} : {A : Type ℓ} → Option A → Bool
is_some none = false
is_some (some a) = true

abbrev pub is_failure : Outcome → Bool
is_failure fail = true
is_failure error = true
is_failure _ = false

abbrev pub is_xfail : Outcome → Bool
is_xfail xfail = true
is_xfail _ = false

abbrev pub is_skipped : Outcome → Bool
is_skipped skipped = true
is_skipped _ = false

-- A traceback and a failure type are recorded exactly for failures and errors, an xfail reason
-- exactly for xfailed tests, and a skip reason exactly for skipped ones.
detail_fields :
    (t : TestEntry)
    → let d = detail t in
      (d.outcome ≡ categorize_outcome t)
      × (is_some d.error ≡ is_failure d.outcome)
      × (is_some d.failure_type ≡ is_failure d.outcome)
      × (is_some d.xfail_reason ≡ is_xfail d.outcome)
      × (is_some d.skip_reason ≡ is_skipped d.outcome)
unfolding detail
detail_fields t = ground arith
