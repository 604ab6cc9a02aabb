-- ===== src/Base/Family.antt =====
-- Families `K → A`, such as the states of processes or the files of a disk, and their update.
use mathlib.Core.Path.{◌≡◌, sym, subst}
use mathlib.Core.Logic.{◌≢◌, ite}
use native.Mathlib.Omega.{arith}
use functional_tests.Base.Equality.{Eq}

abbrev pub updated {ℓ κ} : {K : Type ℓ} {A : Type κ} ⦃e : Eq K⦄ → (K → A) → K → A → K → A
updated ⦃e⦄ f k a j = ite (e.dec k j) a (f j)

module _ {ℓ κ} {K : Type ℓ} {A : Type κ} ⦃e : Eq K⦄ (f : K → A) (k : K) (a : A) where
  pub updated-same : updated f k a k ≡ a
  updated-same = ground arith

  pub updated-apart : (j : K) → k ≢ j → updated f k a j ≡ f j
  updated-apart j apart = ground arith

  -- What holds of the new value at its index and of the others at theirs.
  pub updated-elim {μ} :
      (P : K → A → Type μ) → P k a → ((j : K) → k ≢ j → P j (f j)) → (j : K) → P j (updated f k a j)
  updated-elim P here rest j = elim (e.dec k j) [
    | yes same ↦ subst (λ i. P i (updated f k a i)) same (subst (P k) (sym updated-same) here)
    | no apart ↦ subst (P j) (sym (updated-apart j apart)) (rest j apart)
  ]
