-- ===== src/ErrorCodes/Table.antt =====
-- The statements of framework/error_codes.py, and that the validator accepts them.
pub mod First
pub mod Second
pub mod Third
pub mod Fourth
pub mod Fifth
use mathlib.Core.Path.{subst}
use functional_tests.Base.{
  ℕ, ◌≡◌, refl, sym, ap, ◌<◌, Bool, true, some, false, ◌&&◌, ltb, List, [], ◌∷◌, ◌++◌, map, arith,
}
use functional_tests.ErrorCodes.{
  Code, Statement, int_assign, other, codes_of, validate_error_codes_sorted,
}
use functional_tests.ErrorCodes.Order.{
  Increasing, increasing, increasing_iff, validate_error_codes_sorted_nil,
}
use functional_tests.ErrorCodes.Table.First.{first_codes}
use functional_tests.ErrorCodes.Table.Second.{second_codes}
use functional_tests.ErrorCodes.Table.Third.{third_codes}
use functional_tests.ErrorCodes.Table.Fourth.{fourth_codes}
use functional_tests.ErrorCodes.Table.Fifth.{fifth_codes}

abbrev table : List Code
table = first_codes ++ second_codes ++ third_codes ++ fourth_codes ++ fifth_codes

-- The docstring comes first.
unfoldable error_code_statements : List Statement
error_code_statements = other ∷ map int_assign table

codes_of-map : (codes : List Code) → codes_of (map int_assign codes) ≡ codes
unfolding codes_of
codes_of-map [] = refl
codes_of-map (c ∷ codes) = ap (λ cs. c ∷ cs) (codes_of-map codes)

table-increasing : increasing table ≡ true
table-increasing = refl

-- The validator accepts the file.
error_codes_valid : validate_error_codes_sorted (some error_code_statements) ≡ []
unfolding error_code_statements codes_of
error_codes_valid =
    (validate_error_codes_sorted_nil error_code_statements).1
      (subst Increasing (sym (codes_of-map table)) ((increasing_iff table).1 table-increasing))
