-- ===== src/Content/Rates.antt =====
-- When a run passes, and what its rate shows.
use functional_tests.Base.{
  ℕ, ◌+◌, ◌*◌, ◌/◌, ◌≤◌, ◌<◌, ◌≡◌, ◌↔◌, ◌≢◌, inl, inr, Bool-cases, refl, ap, ◌∷◌, [], ◌++◌, List,
  arith, length, take, drop, take-append-drop, length-take, leb,
}
use native.Mathlib.Nat.{div-add-mod, mul-le-mul_right}
use native.Mathlib.Decide.{dec_lt}
use functional_tests.Analyzer.Reconcile.{Counts}
use functional_tests.Content.{
  pass, determine_verdict, cap_items, nothing_ran, all_passed, tenths, pass_rate,
}

-- A run passes exactly when some test passed and none failed, crashed or passed unexpectedly.
pub determine_verdict_pass :
    (c : Counts)
    → ((determine_verdict c).0 ≡ pass)
      ↔ ((0 < c.passed) × (c.failed ≡ 0) × (c.error ≡ 0) × (c.xpassed ≡ 0))
unfolding determine_verdict
determine_verdict_pass c = ground arith

tenths_lt : (p b : ℕ) → b ≢ 0 → p * 1000 / (p + b) < 1000
tenths_lt p b some_bad =
    let q = p * 1000 / (p + b) in
    elim (dec_lt q 1000) [
      | yes h ↦ h
      | no h ↦
          let more : 1000 * (p + b) ≤ q * (p + b) = mul-le-mul_right (p + b) (omega arith) in
          absurd (omega (arith, div-add-mod (p * 1000) (p + b)))
    ]

-- The printed rate is "100%" exactly when some test passed and none failed or crashed; a dash
-- exactly when no test reached a verdict; and otherwise tenths of a percent below 100.
pass_rate_shown :
    (c : Counts)
    → ((pass_rate c ≡ all_passed) ↔ ((0 < c.passed) × (c.failed + c.error ≡ 0)))
      × ((pass_rate c ≡ nothing_ran) ↔ (c.passed + c.failed + c.error ≡ 0))
      × ((n : ℕ) → pass_rate c ≡ tenths n → n < 1000)
unfolding pass_rate
pass_rate_shown c = (
  (λ h. ground arith, λ h. ground arith),
  (λ h. ground arith, λ h. ground arith),
  λ n h. ground (arith, tenths_lt c.passed (c.failed + c.error)),
)

module _ {ℓ} {A : Type ℓ} where
  drop_all : (items : List A) → items ++ drop (length items) items ≡ items
  drop_all [] = refl
  drop_all (x ∷ xs) = ap (λ ys. x ∷ ys) (drop_all xs)

  length_taken : (items : List A) (most : ℕ) → most ≤ length items → length (take most items) ≡ most
  length_taken items most h = omega (arith, length-take most items)

  -- At most `most` items are shown; they head the list, and the number omitted is that of the rest.
  cap_items_lem :
      (items : List A) (most : ℕ)
      → let (shown, omitted) = cap_items items most in
        (length shown ≤ most)
        × (shown ++ drop (length shown) items ≡ items)
        × (length shown + omitted ≡ length items)
  unfolding cap_items
  cap_items_lem items most = elim (Bool-cases (leb (length items) most)) [
    | inl few ↦ rw few (ground arith, drop_all items, omega arith)
    | inr many ↦ rw many (
      omega (arith, length-take most items),
      rw (length_taken items most (ground arith)) (take-append-drop most items),
      ground (arith, length_taken items most),
    )
  ]
