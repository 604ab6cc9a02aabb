-- ===== src/Base/Perm.antt =====
-- Comprehensions and the order of a list.
use mathlib.Core.Path.{◌≡◌, refl}
use mathlib.Core.Logic.{inl, inr}
use mathlib.Core.Bool.{Bool, not, ◌&&◌}
use mathlib.Core.List.{List, [], ◌∷◌, ◌++◌, Permᴰ}
use mathlib.Core.List.Permᴰ
use native.Mathlib.Omega.{arith}
use functional_tests.Base.Tests.{Bool-cases}
use functional_tests.Base.Lists.{select}

module _ {ℓ} {A : Type ℓ} (p : A → Bool) where
  -- What is left out and what is kept are together the whole.
  pub Permᴰ-select : (xs : List A) → Permᴰ (select (λ x. not (p x)) xs ++ select p xs) xs
  Permᴰ-select [] = Permᴰ.nil
  Permᴰ-select (x ∷ xs) = elim (Bool-cases (p x)) [
    | inl kept ↦ rw kept (
        Permᴰ.trans (Permᴰ.middle x (select (λ y. not (p y)) xs) (select p xs))
          (Permᴰ.cons refl (Permᴰ-select xs)))
    | inr left ↦ rw left (Permᴰ.cons refl (Permᴰ-select xs))
  ]

  pub select-select :
      (q r : A → Bool)
      → ((x : A) → r x ≡ (p x && q x))
      → (xs : List A) → select r xs ≡ select p (select q xs)
  select-select q r both [] = refl
  select-select q r both (x ∷ xs) = ground (arith, both x, select-select q r both xs)
