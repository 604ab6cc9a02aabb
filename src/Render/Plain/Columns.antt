-- ===== src/Render/Plain/Columns.antt =====
-- The columns of the plain text report (compatibility/result_analyzer/render_text.py).
use functional_tests.Base.{
  ℕ, zero, suc, ◌-◌, ◌≤◌, ◌≡◌, refl, List, [], ◌∷◌, map, length, length-append, arith,
}
use functional_tests.Base.Text.{Text}
use functional_tests.Analyzer.Reconcile.{Counts}
use functional_tests.Render.{maximum}
use functional_tests.Render.Plain.{spaces, ljust, count_rows, width, label_column}

-- Every text of a list has the given length.
abbrev pub AllLong : ℕ → List Text → Type 0
AllLong n [] = Unit
AllLong n (t ∷ ts) = (length t ≡ n) × AllLong n ts

length-spaces : (n : ℕ) → length (spaces n) ≡ n
unfolding spaces
length-spaces zero = refl
length-spaces (suc n) = omega (arith, length-spaces n)

length-ljust : (n : ℕ) (t : Text) → length t ≤ n → length (ljust n t) ≡ n
unfolding ljust
length-ljust n t short =
    omega (arith, length-append t (spaces (n - length t)), length-spaces (n - length t))

justified :
    (n : ℕ) (rows : List (Text × ℕ))
    → maximum (map (λ (r : Text × ℕ). length r.0) rows) ≤ n
    → AllLong n (map (λ (r : Text × ℕ). ljust n r.0) rows)
unfolding maximum
justified n [] wide = tt
justified n ((t, k) ∷ rows) wide = (length-ljust n t (omega arith), justified n rows (omega arith))

-- The counts of the breakdown stand in one column: every label is as wide as the widest.
label_column-AllLong : (c : Counts) → AllLong (width (count_rows c)) (label_column (count_rows c))
unfolding width
label_column-AllLong c = justified (width (count_rows c)) (count_rows c) (omega arith)
