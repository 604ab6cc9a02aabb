-- ===== src/Tests/Analyzer.antt =====
-- The analyzer on small reports.
use functional_tests.Base.{
  ℕ, String, ◌≡◌, refl, ◌≢◌, ◌↔◌, Bool, true, false, none, some, List, [], ◌∷◌, arith, ◌+◌, ◌≤◌,
  any, all, count, contains, nat_eq, string_eq, text_eq,
}
use functional_tests.Base.Dict.{Dict}
use functional_tests.Base.Text.{Text, codes, is_tag_char, span}
use functional_tests.Analyzer.Report.{Phase, TestEntry, pass, fail, failing_phase_info, has_outcome}
use functional_tests.Analyzer.Extract.{
  search_tag, is_infra_message, infra_exception_names, extract_failure_tag, tag_here, tag_of_match,
}
use functional_tests.Analyzer.Extract.Types.{Raised, is_infra_message_iff}
use functional_tests.Analyzer.Feature.{Key, Named, feature_path, group_by_feature}
use functional_tests.Analyzer.Feature.Counts.{
  count_at, counts_test, counts_deselected, count_at-group_by_feature,
}
use functional_tests.Analyzer.Feature.Needs.{needs_at, lacked, needs_at-group_by_feature}
use functional_tests.Analyzer.Reconcile.{count_or_zero}

abbrev call_phase : Phase
call_phase = record {
  outcome = some "failed";
  message = some (codes "AssertionError: [RESULT_MISMATCH] x");
  longrepr = none;
}

abbrev setup_phase : Phase
setup_phase = record { outcome = some "passed"; message = none; longrepr = none }

abbrev name : Text
name = codes "a/tests/core/find/test_x.py::test_one[m]"

abbrev failing : TestEntry
failing = record {
  nodeid = some name;
  outcome = some "failed";
  duration = some 3;
  call = some call_phase;
  setup = some setup_phase;
  teardown = none;
  xfail_reason = none;
}

abbrev core : List Text
core = codes "core" ∷ []

name_path : feature_path name ≡ codes "core" ∷ codes "find" ∷ codes "test_x.py" ∷ []
unfolding feature_path nat_eq
name_path = refl

failing_tag : extract_failure_tag failing ≡ codes "RESULT_MISMATCH"
unfolding extract_failure_tag failing_phase_info search_tag has_outcome string_eq nat_eq is_tag_char
    tag_here tag_of_match span
failing_tag = refl

abbrev two_tests : List Named
two_tests = (name, fail) ∷ (codes "tests/core/test_y.py::test_two", pass) ∷ []

abbrev dropped : Dict Text (Dict Text Bool)
dropped = (codes "tests/core/test_z.py::test_three", (codes "oplog", true) ∷ []) ∷ []

count_at-group_by_feature_example :
    count_at Key.failed core (group_by_feature two_tests dropped)
    ≡ count (counts_test Key.failed core) two_tests
      + count (counts_deselected Key.failed core) dropped
count_at-group_by_feature_example = count_at-group_by_feature Key.failed core two_tests dropped

needs_at-group_by_feature_example :
    needs_at (codes "oplog") core (group_by_feature two_tests dropped)
    ≡ any (lacked (codes "oplog") core) dropped
needs_at-group_by_feature_example = needs_at-group_by_feature (codes "oplog") core two_tests dropped

abbrev refused : Text
refused = codes "ConnectionError: refused"

is_infra_message_iff_example :
    (is_infra_message refused ≡ true)
    ↔ ((n : Text) × (contains infra_exception_names n ≡ true) × Raised refused n)
is_infra_message_iff_example = is_infra_message_iff refused

abbrev tagged : Text
tagged = codes "E [TAG_A] then [B]"

tagged_differs : codes "TAG_A" ≡ [] → ⊥
tagged_differs h = cc

tagged_tag : search_tag tagged ≡ codes "TAG_A"
unfolding search_tag nat_eq is_tag_char tag_here tag_of_match span
tagged_tag = refl

tagged_found : search_tag tagged ≢ []
tagged_found = λ h. absurd (tagged_differs (rw tagged_tag at h))

no_bracket : contains (codes "E ") b'[' ≡ false
unfolding nat_eq
no_bracket = refl

capitals : all is_tag_char (codes "TAG_A") ≡ true
unfolding is_tag_char nat_eq
capitals = refl

abbrev summary : Dict String ℕ
summary = ("collected", 5) ∷ ("total", 3) ∷ ("passed", 2) ∷ ("failed", 1) ∷ ("deselected", 1) ∷ []

summary_le : count_or_zero summary "total" ≤ count_or_zero summary "collected"
unfolding count_or_zero string_eq
summary_le = omega arith
