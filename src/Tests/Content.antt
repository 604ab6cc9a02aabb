-- ===== src/Tests/Content.antt =====
-- The report's sections and verdicts on a small analysis.
use functional_tests.Base.{◌≡◌, refl, text_eq, nat_eq}
use functional_tests.Analyzer.Reconcile.{Counts}
use functional_tests.Content.{tenths, pass_rate}

abbrev counts : Counts
counts = record {
  collected = 6;
  deselected = 1;
  total = 5;
  passed = 1;
  failed = 2;
  error = 1;
  skipped = 1;
  xfailed = 0;
  xpassed = 0;
}

rate_printed : pass_rate counts ≡ tenths 250
unfolding pass_rate nat_eq
rate_printed = refl
