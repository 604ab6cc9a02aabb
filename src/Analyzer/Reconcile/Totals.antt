-- ===== src/Analyzer/Reconcile/Totals.antt =====
-- The decomposition of a run.
use functional_tests.Base.{ℕ, ◌+◌, ◌≤◌, String, ◌≡◌, arith}
use functional_tests.Base.Dict.{Dict}
use functional_tests.Analyzer.Reconcile.{count_or_zero, build_reconciliation}

-- If no more tests ran than were collected, the deselected ones are exactly the rest, whatever
-- the summary says of them.
collected-eq-deselected_add_total :
    (summary : Dict String ℕ)
    → count_or_zero summary "total" ≤ count_or_zero summary "collected"
    → let r = build_reconciliation summary in r.collected ≡ r.deselected + r.total
unfolding build_reconciliation
collected-eq-deselected_add_total summary h = ground arith
