-- ===== src/Analyzer/Reconcile.antt =====
-- Run totals (`build_reconciliation` of analyzer.py).
pub mod Totals
use functional_tests.Base.{
  ℕ, zero, suc, ◌+◌, ◌-◌, ◌*◌, ◌/◌, ◌%◌, String, Option, none, some, ◌==◌, nat_eq, string_eq, ltb,
  leb, if◌then◌else◌,
}
use functional_tests.Base.Dict.{Dict, lookup}

-- The counts under `_OUTCOME_COUNT_KEYS`.
pub record Counts : Type 0 where
  pub collected : ℕ
  pub deselected : ℕ
  pub total : ℕ
  pub passed : ℕ
  pub failed : ℕ
  pub error : ℕ
  pub skipped : ℕ
  pub xfailed : ℕ
  pub xpassed : ℕ

-- `native_summary.get(key, 0)`
unfoldable pub count_or_zero : Dict String ℕ → String → ℕ
count_or_zero summary key = elim (lookup key summary) [ none ↦ 0 | some n ↦ n ]

unfoldable pub counts_with_missing_as_zero : Dict String ℕ → Counts
counts_with_missing_as_zero summary = record {
  collected = count_or_zero summary "collected";
  deselected = count_or_zero summary "deselected";
  total = count_or_zero summary "total";
  passed = count_or_zero summary "passed";
  failed = count_or_zero summary "failed";
  error = count_or_zero summary "error";
  skipped = count_or_zero summary "skipped";
  xfailed = count_or_zero summary "xfailed";
  xpassed = count_or_zero summary "xpassed";
}

-- `pass_rate` by what it is computed from: `0.0`, or `round(n / d * 100, 2)` of the two numbers. The
-- division and the rounding of floats are not carried out.
pub data Percentage : Type 0 where
  zero_percent : Percentage
  rounded_percentage : ℕ → ℕ → Percentage

unfoldable pub percentage : Counts → Percentage
percentage c =
    let denominator = c.passed + c.failed + c.error in
    if ltb 0 denominator then rounded_percentage c.passed denominator else zero_percent

pub record Reconciliation : Type 0 where
  pub counts : Counts
  pub open counts use *
  pub pass_rate : Percentage

derive_deselected : Counts → Counts
derive_deselected c =
    if leb c.total c.collected then record c { deselected = c.collected - c.total } else c

unfoldable pub build_reconciliation : Dict String ℕ → Reconciliation
unfolding counts_with_missing_as_zero derive_deselected percentage
build_reconciliation summary =
    let counts = derive_deselected (counts_with_missing_as_zero summary) in
    record { counts = counts; pass_rate = percentage counts }
