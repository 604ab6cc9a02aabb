-- ===== src/ErrorCodes/Order.antt =====
-- The validator of error codes and the order of the codes (error_codes_validator.py).
use functional_tests.Base.{
  ℕ, ◌≤◌, ◌<◌, ◌≡◌, refl, ◌↔◌, Bool, true, ◌&&◌, ltb, none, some, List, [], ◌∷◌, ◌++◌, arith,
  nat_eq, Option-cases, inl, inr,
}
use functional_tests.Base.Dict.{Dict, lookup, insert, lookup-insert}
use functional_tests.ErrorCodes.{
  Code, Statement, codes_of, order_errors, duplicate_errors, validate_error_codes_sorted,
}

abbrev pub increasing : List Code → Bool
increasing [] = true
increasing (c ∷ []) = true
increasing (c ∷ d ∷ rest) = ltb c.value d.value && increasing (d ∷ rest)

abbrev pub Increasing : List Code → Type 0
Increasing [] = Unit
Increasing (c ∷ []) = Unit
Increasing (c ∷ d ∷ rest) = (c.value < d.value) × Increasing (d ∷ rest)

pub increasing_iff : (codes : List Code) → Increasing codes ↔ (increasing codes ≡ true)
increasing_iff [] = (λ _. refl, λ _. tt)
increasing_iff (c ∷ []) = (λ _. refl, λ _. tt)
increasing_iff (c ∷ d ∷ rest) =
    let (f, g) = increasing_iff (d ∷ rest) in
    (λ (lt, up). ground (arith, f up), λ h. (ground arith, g (ground arith)))

append-nil_left : {A : Type 0} (xs ys : List A) → xs ++ ys ≡ [] → (xs ≡ []) × (ys ≡ [])
append-nil_left [] ys h = (refl, h)
append-nil_left (x ∷ xs) ys h = cc

-- No violation is found only if each code is new to `seen`, and remembered from then on.
fresh_head :
    (seen : Dict ℕ Code) (c : Code) (rest : List Code)
    → duplicate_errors seen (c ∷ rest) ≡ []
    → (lookup c.value seen ≡ none) × (duplicate_errors (insert c.value c seen) rest ≡ [])
unfolding duplicate_errors
fresh_head seen c rest h = elim (Option-cases (lookup c.value seen)) [
  | inl e ↦ (e, ground (arith, e))
  | inr (first, e) ↦ absurd (ground (arith, e))
]

sound :
    (seen : Dict ℕ Code) (codes : List Code)
    → order_errors codes ≡ []
    → duplicate_errors seen codes ≡ []
    → Increasing codes
unfolding order_errors
sound seen [] o d = tt
sound seen (c ∷ []) o d = tt
sound seen (c ∷ e ∷ rest) o d =
    let (_, later) = fresh_head seen c (e ∷ rest) d in
    let (unseen, _) = fresh_head (insert c.value c seen) e rest later in
    (
      ground (arith, unseen, lookup-insert e.value c.value c seen),
      sound (insert c.value c seen) (e ∷ rest) (ground arith) later,
    )

-- `seen` has no code from the head of the list on.
abbrev Below : Dict ℕ Code → List Code → Type 0
Below seen [] = Unit
Below seen (c ∷ rest) = (v : ℕ) → c.value ≤ v → lookup v seen ≡ none

Below-insert :
    (seen : Dict ℕ Code) (c : Code) (rest : List Code)
    → Increasing (c ∷ rest)
    → Below seen (c ∷ rest)
    → Below (insert c.value c seen) rest
Below-insert seen c [] up low = tt
Below-insert seen c (e ∷ rest) (lt, _) low =
    λ v le. ground (arith, lookup-insert v c.value c seen, low v (omega arith))

Increasing-tail : (c : Code) (rest : List Code) → Increasing (c ∷ rest) → Increasing rest
Increasing-tail c [] up = tt
Increasing-tail c (e ∷ rest) (_, up) = up

no_duplicates :
    (seen : Dict ℕ Code) (codes : List Code)
    → Increasing codes
    → Below seen codes
    → duplicate_errors seen codes ≡ []
unfolding duplicate_errors
no_duplicates seen [] up low = refl
no_duplicates seen (c ∷ rest) up low = rw (low c.value (omega arith)) (
    no_duplicates (insert c.value c seen) rest (Increasing-tail c rest up)
      (Below-insert seen c rest up low))

in_order : (codes : List Code) → Increasing codes → order_errors codes ≡ []
unfolding order_errors
in_order [] up = refl
in_order (c ∷ []) up = refl
in_order (c ∷ e ∷ rest) (lt, up) = ground (arith, in_order (e ∷ rest) up)

Below-nil : (codes : List Code) → Below [] codes
Below-nil [] = tt
Below-nil (c ∷ rest) = λ v le. refl

-- Where the file exists, the validator reports nothing exactly when the values of the integer constants, in the order of
-- the file, increase strictly.
pub validate_error_codes_sorted_nil :
    (statements : List Statement)
    → (validate_error_codes_sorted (some statements) ≡ []) ↔ Increasing (codes_of statements)
unfolding validate_error_codes_sorted
validate_error_codes_sorted_nil statements =
    let codes = codes_of statements in
    (
      λ h.
          let (o, d) = append-nil_left (order_errors codes) (duplicate_errors [] codes) h in
          sound [] codes o d,
      λ up. rw (in_order codes up) (no_duplicates [] codes up (Below-nil codes)),
    )
