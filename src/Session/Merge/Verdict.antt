-- ===== src/Session/Merge/Verdict.antt =====
-- The verdict on the merged report of two phases.
use functional_tests.Base.{◌+◌, ◌<◌, ◌≡◌, ◌↔◌, arith, string_eq}
use functional_tests.Analyzer.Reconcile.{count_or_zero, build_reconciliation}
use functional_tests.Content.{pass, determine_verdict}
use functional_tests.Content.Rates.{determine_verdict_pass}
use functional_tests.Session.Merge.{Summary, merge_summaries}
use functional_tests.Session.Merge.Sums.{count-merge_summaries, known_key}

-- A phase in which no test failed, crashed or passed unexpectedly.
abbrev pub IsGood : Summary → Type 0
IsGood s =
    (count_or_zero s "failed" ≡ 0) × (count_or_zero s "error" ≡ 0) × (count_or_zero s "xpassed" ≡ 0)

-- The analyzer passes the merged report of two phases exactly if no test of either phase failed,
-- crashed or passed unexpectedly and a test of one of them passed.
pub determine_verdict-merge_summaries :
    (p1 p2 : Summary)
    → ((determine_verdict (build_reconciliation (merge_summaries p1 p2)).counts).0 ≡ pass)
      ↔ (IsGood p1 × IsGood p2 × (0 < count_or_zero p1 "passed" + count_or_zero p2 "passed"))
unfolding build_reconciliation
determine_verdict-merge_summaries p1 p2 =
    let merged = (build_reconciliation (merge_summaries p1 p2)).counts in
    ground (
      arith,
      determine_verdict_pass merged,
      count-merge_summaries p1 p2 "passed" (known_key.1),
      count-merge_summaries p1 p2 "failed" (known_key.2),
      count-merge_summaries p1 p2 "error" (known_key.3),
      count-merge_summaries p1 p2 "xpassed" (known_key.6),
    )
