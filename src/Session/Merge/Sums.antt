-- ===== src/Session/Merge/Sums.antt =====
-- What a merged summary holds under each key.
use functional_tests.Base.{
  ℕ, ◌+◌, String, ◌≡◌, refl, true, false, ◌&&◌, none, some, List, [], ◌∷◌, arith, ltb, ◌==◌,
  string_eq, contains, Option-cases, inl, inr, if◌then◌else◌,
}
use functional_tests.Base.Dict.{lookup, insert, lookup-insert}
use functional_tests.Analyzer.Reconcile.{count_or_zero}
use functional_tests.Session.Merge.{
  Summary, pop, summed_keys, sum_keys, set_collected, merge_summaries,
}

lookup-pop :
    (j k : String) (d : Summary) → lookup j (pop k d) ≡ (if j == k then none else lookup j d)
unfolding pop
lookup-pop j k [] = ground arith
lookup-pop j k ((i, n) ∷ d) = ground (arith, lookup-pop j k d)

pub count-insert :
    (j k : String) (n : ℕ) (d : Summary)
    → count_or_zero (insert k n d) j ≡ (if j == k then n else count_or_zero d j)
unfolding count_or_zero
count-insert j k n d = ground (arith, lookup-insert j k n d)

count-pop :
    (j k : String) (d : Summary)
    → count_or_zero (pop k d) j ≡ (if j == k then 0 else count_or_zero d j)
unfolding count_or_zero
count-pop j k d = ground (arith, lookup-pop j k d)

count_of_lookup :
    (k : String) (d : Summary) → count_or_zero d k ≡ (elim (lookup k d) [ none ↦ 0 | some n ↦ n ])
unfolding count_or_zero
count_of_lookup k d = refl

-- No key is summed twice.
abbrev pub Distinct : List String → Type 0
Distinct [] = Unit
Distinct (k ∷ ks) = (contains ks k ≡ false) × Distinct ks

count-sum_keys :
    (keys : List String) (p1 p2 : Summary) (j : String)
    → Distinct keys
    → count_or_zero (sum_keys keys p1 p2) j
      ≡ count_or_zero p1 j + (if contains keys j then count_or_zero p2 j else 0)
unfolding sum_keys
count-sum_keys [] p1 p2 j _ = omega arith
count-sum_keys (k ∷ keys) p1 p2 j (fresh, distinct) = elim (Option-cases (lookup k p2)) [
  | inl e ↦ rw e (ground (arith, count-sum_keys keys p1 p2 j distinct, count_of_lookup k p2, e))
  | inr (n, e) ↦ rw e (
      ground (
        arith,
        count-sum_keys keys (insert k (count_or_zero p1 k + n) p1) p2 j distinct,
        count-insert j k (count_or_zero p1 k + n) p1,
        count_of_lookup k p2,
        e,
      ))
]

keys-Distinct : Distinct summed_keys
unfolding summed_keys string_eq
keys-Distinct = (refl, (refl, (refl, (refl, (refl, (refl, (refl, tt)))))))

count-set_collected :
    (p1 p2 : Summary) (key : String)
    → count_or_zero (set_collected p1 p2) key ≡ (
        if key == "collected" && ltb 0 (count_or_zero p2 "collected")
        then count_or_zero p2 "collected"
        else count_or_zero p1 key)
unfolding set_collected
count-set_collected p1 p2 key =
    ground (arith, count-insert key "collected" (count_or_zero p2 "collected") p1)

not_summed :
    (contains summed_keys "collected" ≡ false) × (contains summed_keys "deselected" ≡ false)
unfolding summed_keys string_eq
not_summed = (refl, refl)

-- Under each outcome, and under the total, a merged summary counts the tests of both phases.
pub count-merge_summaries :
    (p1 p2 : Summary) (key : String)
    → contains summed_keys key ≡ true
    → count_or_zero (merge_summaries p1 p2) key ≡ count_or_zero p1 key + count_or_zero p2 key
unfolding merge_summaries
count-merge_summaries p1 p2 key known =
    let summed = sum_keys summed_keys p1 p2 in
    ground (
      arith,
      not_summed,
      count-pop key "deselected" (set_collected summed p2),
      count-set_collected summed p2 key,
      count-sum_keys summed_keys p1 p2 key keys-Distinct,
    )

other_key : ◌==◌ {A = String} "collected" "deselected" ≡ false
unfolding string_eq
other_key = refl

pub known_key :
    let known = λ (k : String). contains summed_keys k ≡ true in
    known "total"
    × known "passed"
    × known "failed"
    × known "error"
    × known "skipped"
    × known "xfailed"
    × known "xpassed"
unfolding summed_keys string_eq
known_key = (refl, refl, refl, refl, refl, refl, refl)

-- The merged run has collected what phase 2 did, if it says, and else what phase 1 did, and no
-- count of deselected tests is kept.
collected-merge_summaries :
    (p1 p2 : Summary)
    → let merged = merge_summaries p1 p2 in
      (count_or_zero merged "collected" ≡ (
        if ltb 0 (count_or_zero p2 "collected")
        then count_or_zero p2 "collected"
        else count_or_zero p1 "collected"))
      × (count_or_zero merged "deselected" ≡ 0)
unfolding merge_summaries
collected-merge_summaries p1 p2 =
    let summed = sum_keys summed_keys p1 p2 in
    (
      ground (
        arith,
        not_summed,
        other_key,
        count-pop "collected" "deselected" (set_collected summed p2),
        count-set_collected summed p2 "collected",
        count-sum_keys summed_keys p1 p2 "collected" keys-Distinct,
      ),
      ground (arith, count-pop "deselected" "deselected" (set_collected summed p2)),
    )

-- The total is the sum of the outcomes.
abbrev pub IsReconciled : Summary → Type 0
IsReconciled s =
    count_or_zero s "total"
    ≡ count_or_zero s "passed"
      + count_or_zero s "failed"
      + count_or_zero s "error"
      + count_or_zero s "skipped"
      + count_or_zero s "xfailed"
      + count_or_zero s "xpassed"

-- If the total of each phase is the sum of its outcomes, that of the merged report is.
merge_summaries-IsReconciled :
    (p1 p2 : Summary) → IsReconciled p1 → IsReconciled p2 → IsReconciled (merge_summaries p1 p2)
merge_summaries-IsReconciled p1 p2 h1 h2 = omega (
  arith,
  count-merge_summaries p1 p2 "total" (known_key.0),
  count-merge_summaries p1 p2 "passed" (known_key.1),
  count-merge_summaries p1 p2 "failed" (known_key.2),
  count-merge_summaries p1 p2 "error" (known_key.3),
  count-merge_summaries p1 p2 "skipped" (known_key.4),
  count-merge_summaries p1 p2 "xfailed" (known_key.5),
  count-merge_summaries p1 p2 "xpassed" (known_key.6),
)
