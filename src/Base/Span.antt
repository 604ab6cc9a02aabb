-- ===== src/Base/Span.antt =====
-- Laws of `span`: it cuts a text in two, and takes a run that ends at a character outside the class.
use functional_tests.Base.{ℕ, ◌≡◌, refl, Bool, true, false, [], ◌∷◌, ◌++◌, arith, all}
use functional_tests.Base.Text.{Text, span}

module _ (p : ℕ → Bool) where
  pub span-append : (s : Text) → (span p s).0 ++ (span p s).1 ≡ s
  unfolding span
  span-append [] = refl
  span-append (c ∷ s) = ground (arith, span-append s)

  pub all-span : (s : Text) → all p (span p s).0 ≡ true
  unfolding span
  all-span [] = refl
  all-span (c ∷ s) = ground (arith, all-span s)

  pub span-run :
      (run : Text) (c : ℕ) (s : Text)
      → all p run ≡ true
      → p c ≡ false
      → span p (run ++ c ∷ s) ≡ (run, c ∷ s)
  unfolding span
  span-run [] c s h stop = rw stop
  span-run (a ∷ run) c s h stop = ground (arith, span-run run c s)
