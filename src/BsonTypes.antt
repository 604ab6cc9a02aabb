-- ===== src/BsonTypes.antt =====
-- The cases of BSON types that a keyword accepts and rejects (framework/bson_type_validator.py and
-- the enum of framework/test_constants.py).
pub mod Covered
use mathlib.Core.Logic.{dite}
use native.Mathlib.Decide.{ℕ_discrete}
use functional_tests.Base.{
  ℕ, zero, suc, ◌≡◌, refl, sym, ap, ◌∙◌, String, ◌<>◌, Bool, true, false, not, ◌&&◌, ◌||◌, Option,
  none, some, List, [], ◌∷◌, ◌++◌, map, Eq, ◌==◌, contains, select,
}
use functional_tests.Base.Dict.{Dict, lookup}

pub data BsonType : Type 0 where
  double string object array bin_data object_id bool date null regex javascript : BsonType
  int timestamp long decimal min_key max_key : BsonType

-- The members of the enum, in its order.
unfoldable pub bson_types : List BsonType
bson_types =
    double ∷ string ∷ object ∷ array ∷ bin_data ∷ object_id ∷ bool ∷ date ∷ null ∷ regex
    ∷ javascript ∷ int ∷ timestamp ∷ long ∷ decimal ∷ min_key ∷ max_key ∷ []

unfoldable pub value : BsonType → String
value double = "double"
value string = "string"
value object = "object"
value array = "array"
value bin_data = "bin_data"
value object_id = "object_id"
value bool = "bool"
value date = "date"
value null = "null"
value regex = "regex"
value javascript = "javascript"
value int = "int"
value timestamp = "timestamp"
value long = "long"
value decimal = "decimal"
value min_key = "min_key"
value max_key = "max_key"

-- The members are distinct, as their places in the enum are.
unfoldable pub place : BsonType → ℕ
place double = 0
place string = 1
place object = 2
place array = 3
place bin_data = 4
place object_id = 5
place bool = 6
place date = 7
place null = 8
place regex = 9
place javascript = 10
place int = 11
place timestamp = 12
place long = 13
place decimal = 14
place min_key = 15
place max_key = 16

unfoldable pub member_at : List BsonType → ℕ → BsonType
member_at [] n = max_key
member_at (t ∷ ts) zero = t
member_at (t ∷ ts) (suc n) = member_at ts n

pub member_at-place : (t : BsonType) → member_at bson_types (place t) ≡ t
unfolding member_at place bson_types
member_at-place double = refl
member_at-place string = refl
member_at-place object = refl
member_at-place array = refl
member_at-place bin_data = refl
member_at-place object_id = refl
member_at-place bool = refl
member_at-place date = refl
member_at-place null = refl
member_at-place regex = refl
member_at-place javascript = refl
member_at-place int = refl
member_at-place timestamp = refl
member_at-place long = refl
member_at-place decimal = refl
member_at-place min_key = refl
member_at-place max_key = refl

unfoldable pub bson_type_dec : Discrete BsonType
unfolding place ℕ_discrete
bson_type_dec t u =
    dite (ℕ_discrete (place t) (place u))
      (λ same. yes (sym (member_at-place t) ∙ ap (member_at bson_types) same ∙ member_at-place u))
      (λ differ. no (λ p. differ (ap place p)))

instance unfoldable pub bson_type_eq : Eq BsonType
unfolding bson_type_dec
bson_type_eq = record { dec = bson_type_dec }

-- A missing list or dict is the empty one, as the code takes both for the same; `valid_types` has
-- to be given. `A` has the sample values.
pub record BsonTypeTestCase (A : Type 0) : Type 0 where
  pub id : String
  pub valid_types : List BsonType
  pub skip_rejection_types : List BsonType
  pub default_error_code : ℕ
  pub error_code_overrides : Dict BsonType ℕ
  pub valid_inputs : Dict BsonType A

-- What `pytest.param` is given.
pub record Param (A : Type 0) : Type 0 where
  pub bson_type : BsonType
  pub sample_value : A
  pub spec : BsonTypeTestCase A
  pub test_id : String

abbrev or_default {ℓ} : {B : Type ℓ} → Option B → B → B
or_default none d = d
or_default (some b) d = b

module _ {A : Type 0} where
  unfoldable pub expected_code : BsonTypeTestCase A → BsonType → ℕ
  unfolding bson_type_eq
  expected_code spec t = or_default (lookup t (spec.error_code_overrides)) (spec.default_error_code)

  module _ (samples : BsonType → A) where
    abbrev rejection : BsonTypeTestCase A → BsonType → Param A
    rejection spec t = record {
      bson_type = t;
      sample_value = samples t;
      spec = spec;
      test_id = "reject_" <> value t <> "_for_" <> spec.id;
    }

    abbrev acceptance : BsonTypeTestCase A → BsonType → Param A
    acceptance spec t = record {
      bson_type = t;
      sample_value = or_default (lookup t (spec.valid_inputs)) (samples t);
      spec = spec;
      test_id = "accept_" <> value t <> "_for_" <> spec.id;
    }

    unfoldable pub is_rejected : BsonTypeTestCase A → BsonType → Bool
    is_rejected spec t =
        not (contains (spec.valid_types) t || contains (spec.skip_rejection_types) t)

    unfoldable pub generate_bson_rejection_test_cases : List (BsonTypeTestCase A) → List (Param A)
    unfolding is_rejected bson_types
    generate_bson_rejection_test_cases [] = []
    generate_bson_rejection_test_cases (spec ∷ params) =
        map (rejection spec) (select (is_rejected spec) bson_types)
        ++ generate_bson_rejection_test_cases params

    unfoldable pub generate_bson_acceptance_test_cases : List (BsonTypeTestCase A) → List (Param A)
    generate_bson_acceptance_test_cases [] = []
    generate_bson_acceptance_test_cases (spec ∷ params) =
        map (acceptance spec) (spec.valid_types) ++ generate_bson_acceptance_test_cases params
