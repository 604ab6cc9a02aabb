-- ===== src/Content/Sections.antt =====
-- What the sections of a report hold (report_content.py).
use functional_tests.Base.{
  ℕ, ◌+◌, ◌≡◌, refl, Bool, true, false, Option, none, some, List, [], ◌∷◌, ◌++◌, arith, ◌==◌,
  text_eq, length, length-append, select, count, if◌then◌else◌,
}
use mathlib.Core.List.{append-nil, append_assoc}
use functional_tests.Base.Dict.{lookup}
use functional_tests.Base.Text.{Text}
use functional_tests.Analyzer.Report.{Outcome}
use functional_tests.Analyzer.Results.{TestDetail, Analysis}
use functional_tests.Content.{
  wants_attention, needs_attention, failure_type, Groups, add_to_group, group_all,
  group_needs_attention, gaps_of, skips_of, known_gaps, skipped_tests,
}

abbrev pub group_or_empty : Option (List TestDetail) → List TestDetail
group_or_empty none = []
group_or_empty (some ts) = ts

abbrev of_type : Text → TestDetail → Bool
of_type ft t = ft == failure_type t

lookup-add_to_group :
    (j ft : Text) (t : TestDetail) (groups : Groups)
    → group_or_empty (lookup j (add_to_group ft t groups))
      ≡ group_or_empty (lookup j groups) ++ (if j == ft then t ∷ [] else [])
unfolding add_to_group
lookup-add_to_group j ft t [] = ground arith
lookup-add_to_group j ft t ((k, ts) ∷ groups) = ground (
  arith,
  lookup-add_to_group j ft t groups,
  append-nil ts,
  append-nil (group_or_empty (lookup j groups)),
)

lookup-group_all :
    (j : Text) (ts : List TestDetail) (groups : Groups)
    → group_or_empty (lookup j (group_all ts groups))
      ≡ group_or_empty (lookup j groups) ++ select (of_type j) ts
unfolding group_all
lookup-group_all j [] groups = rw append-nil
lookup-group_all j (t ∷ ts) groups = ground (
  arith,
  lookup-group_all j ts (add_to_group (failure_type t) t groups),
  lookup-add_to_group j (failure_type t) t groups,
  append-nil (group_or_empty (lookup j groups)),
  append_assoc (group_or_empty (lookup j groups)) (t ∷ []) (select (of_type j) ts),
)

-- The number of tests under all headings.
pub total_grouped : Groups → ℕ
total_grouped [] = 0
total_grouped ((k, ts) ∷ groups) = length ts + total_grouped groups

total-add_to_group :
    (ft : Text) (t : TestDetail) (groups : Groups)
    → total_grouped (add_to_group ft t groups) ≡ total_grouped groups + 1
unfolding total_grouped add_to_group
total-add_to_group ft t [] = omega arith
total-add_to_group ft t ((k, ts) ∷ groups) =
    ground (arith, total-add_to_group ft t groups, length-append ts (t ∷ []))

total-group_all :
    (ts : List TestDetail) (groups : Groups)
    → total_grouped (group_all ts groups) ≡ total_grouped groups + length ts
unfolding group_all
total-group_all [] groups = omega arith
total-group_all (t ∷ ts) groups = omega (
  arith,
  total-group_all ts (add_to_group (failure_type t) t groups),
  total-add_to_group (failure_type t) t groups,
)

-- Under each failure type stand the needs-attention tests of that type, in the order of the run,
-- and the headings together list as many tests as need attention.
group_needs_attention_lem :
    (ft : Text) (a : Analysis)
    → (group_or_empty (lookup ft (group_needs_attention a))
        ≡ select (λ t. ft == failure_type t) (needs_attention a))
      × (total_grouped (group_needs_attention a) ≡ length (needs_attention a))
unfolding group_needs_attention total_grouped
group_needs_attention_lem ft a = (
  lookup-group_all ft (needs_attention a) [],
  omega (arith, total-group_all (needs_attention a) []),
)

abbrev passes : Outcome → Bool
passes Outcome.pass = true
passes Outcome.xpass = true
passes _ = false

abbrev pub passing : TestDetail → Bool
passing t = passes t.outcome

sections-length_of :
    (ts : List TestDetail)
    → length ts
      ≡ length (select wants_attention ts)
        + length (gaps_of ts)
        + length (skips_of ts)
        + count passing ts
unfolding gaps_of skips_of
sections-length_of [] = refl
sections-length_of (t ∷ ts) = ground (arith, sections-length_of ts)

-- Each test of an analysis is in exactly one section, or it passed (expectedly or not): the
-- lengths of the sections and the number of passes add up to the number of tests.
sections-length :
    (a : Analysis)
    → length a.tests
      ≡ length (needs_attention a)
        + length (known_gaps a)
        + length (skipped_tests a)
        + count passing a.tests
unfolding needs_attention known_gaps skipped_tests
sections-length a = sections-length_of a.tests
