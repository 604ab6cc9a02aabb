-- ===== src/Analyzer/Feature/Order.antt =====
-- The feature tree of a run whose tests are in no order (`group_by_feature` of analyzer.py): under
-- xdist the workers report their tests in the order in which they end.
use mathlib.Core.List.{Permᴰ}
use mathlib.Core.Quot
use mathlib.Core.Quot.{Quot}
use mathlib.Core.Bool.{Bool-set}
use native.Mathlib.Nat.{ℕ_set}
use functional_tests.Base.{ℕ, ◌+◌, ◌≡◌, refl, sym, ap, ◌∙◌, Bool, List, arith, count, any}
use functional_tests.Base.Dict.{Dict}
use functional_tests.Base.Text.{Text}
use functional_tests.Analyzer.Feature.{Key, Named, group_by_feature}
use functional_tests.Analyzer.Feature.Counts.{
  count_at, counts_test, counts_deselected, count_at-group_by_feature,
}
use functional_tests.Analyzer.Feature.Needs.{needs_at, lacked, needs_at-group_by_feature}

module _ {ℓ} {A : Type ℓ} (p : A → Bool) where
  count-Permᴰ : {xs ys : List A} → Permᴰ xs ys → count p xs ≡ count p ys
  count-Permᴰ Permᴰ.nil = refl
  count-Permᴰ (Permᴰ.cons e d) = ground (arith, ap p e, count-Permᴰ d)
  count-Permᴰ (Permᴰ.swap e f) = ground (arith, ap p e, ap p f)
  count-Permᴰ (Permᴰ.trans d e) = count-Permᴰ d ∙ count-Permᴰ e

  any-Permᴰ : {xs ys : List A} → Permᴰ xs ys → any p xs ≡ any p ys
  any-Permᴰ Permᴰ.nil = refl
  any-Permᴰ (Permᴰ.cons e d) = ground (arith, ap p e, any-Permᴰ d)
  any-Permᴰ (Permᴰ.swap e f) = ground (arith, ap p e, ap p f)
  any-Permᴰ (Permᴰ.trans d e) = any-Permᴰ d ∙ any-Permᴰ e

-- The tests that ran and those that were deselected.
abbrev pub Listed : Type 0
Listed = List Named × Dict Text (Dict Text Bool)

-- The same tests in another order.
abbrev pub SameRun : Listed → Listed → Type 0
SameRun a b = Permᴰ (a.0) (b.0) × Permᴰ (a.1) (b.1)

abbrev pub Run : Type 0
Run = Quot SameRun

-- What the tree is to count, and to list, for a run.
abbrev listed_count : Key → List Text → Listed → ℕ
listed_count k path a = count (counts_test k path) (a.0) + count (counts_deselected k path) (a.1)

pub count_in : Key → List Text → Run → ℕ
count_in k path = Quot.lift ℕ_set (listed_count k path) (λ a b same. ground (
  arith,
  count-Permᴰ (counts_test k path) (same.0),
  count-Permᴰ (counts_deselected k path) (same.1),
))

pub lacks_in : Text → List Text → Run → Bool
lacks_in cap path =
    Quot.lift Bool-set (λ (a : Listed). any (lacked cap path) (a.1))
      (λ a b same. any-Permᴰ (lacked cap path) (same.1))

-- The tree counts and lists what its run, a class of lists in any order, prescribes.
group_by_feature-Run :
    (tests : List Named) (dropped : Dict Text (Dict Text Bool)) (path : List Text)
    → ((k : Key)
        → count_at k path (group_by_feature tests dropped)
          ≡ count_in k path (Quot.mk (tests, dropped)))
      × ((cap : Text)
          → needs_at cap path (group_by_feature tests dropped)
            ≡ lacks_in cap path (Quot.mk (tests, dropped)))
unfolding count_in lacks_in
group_by_feature-Run tests dropped path = (
  λ k. count_at-group_by_feature k path tests dropped,
  λ cap. needs_at-group_by_feature cap path tests dropped,
)

-- The order of the tests, and of the deselected ones, is of no account: at each path the trees of a
-- run in two orders have the same counts and list the same capabilities.
pub group_by_feature-SameRun :
    (a b : Listed)
    → SameRun a b
    → (path : List Text)
    → ((k : Key)
        → count_at k path (group_by_feature (a.0) (a.1))
          ≡ count_at k path (group_by_feature (b.0) (b.1)))
      × ((cap : Text)
          → needs_at cap path (group_by_feature (a.0) (a.1))
            ≡ needs_at cap path (group_by_feature (b.0) (b.1)))
group_by_feature-SameRun a b same path =
    let (counted, listed) = group_by_feature-Run (a.0) (a.1) path in
    let (counted', listed') = group_by_feature-Run (b.0) (b.1) path in
    (
      λ k. counted k ∙ ap (count_in k path) (Quot.sound same) ∙ sym (counted' k),
      λ cap. listed cap ∙ ap (lacks_in cap path) (Quot.sound same) ∙ sym (listed' cap),
    )
