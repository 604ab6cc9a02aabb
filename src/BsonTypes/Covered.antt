-- ===== src/BsonTypes/Covered.antt =====
-- Which BSON types the generated cases cover (framework/bson_type_validator.py).
use functional_tests.Base.{
  ℕ, ◌+◌, ◌≤◌, ◌≡◌, refl, Bool, true, false, not, ◌||◌, List, [], ◌∷◌, ◌++◌, map, ◌==◌, contains,
  select, count, arith, if◌then◌else◌,
}
use functional_tests.BsonTypes.{
  BsonType, bson_type_dec, place, bson_types, bson_type_eq, BsonTypeTestCase, Param, rejection,
  acceptance, is_rejected, generate_bson_rejection_test_cases, generate_bson_acceptance_test_cases,
  double, string, object, array, bin_data, object_id, bool, date, null, regex, javascript, int,
  timestamp, long, decimal, min_key, max_key,
}

bson_types_once : (t : BsonType) → count (λ u. t == u) bson_types ≡ 1
unfolding bson_types bson_type_eq bson_type_dec place
bson_types_once double = refl
bson_types_once string = refl
bson_types_once object = refl
bson_types_once array = refl
bson_types_once bin_data = refl
bson_types_once object_id = refl
bson_types_once bool = refl
bson_types_once date = refl
bson_types_once null = refl
bson_types_once regex = refl
bson_types_once javascript = refl
bson_types_once int = refl
bson_types_once timestamp = refl
bson_types_once long = refl
bson_types_once decimal = refl
bson_types_once min_key = refl
bson_types_once max_key = refl

count-select :
    (t : BsonType) (p : BsonType → Bool) (us : List BsonType)
    → count (λ u. t == u) (select p us) ≡ (if p t then count (λ u. t == u) us else 0)
count-select t p [] = ground arith
count-select t p (u ∷ us) = ground (arith, count-select t p us)

count_not_contained :
    (t : BsonType) (us : List BsonType) → contains us t ≡ false → count (λ u. t == u) us ≡ 0
count_not_contained t [] absent = refl
count_not_contained t (u ∷ us) absent = ground (arith, absent, count_not_contained t us)

count_contained :
    (t : BsonType) (us : List BsonType) → contains us t ≡ true → 1 ≤ count (λ u. t == u) us
count_contained t [] present = ground (arith, present)
count_contained t (u ∷ us) present = ground (arith, present, count_contained t us)

count-append :
    {A : Type 0} (p : A → Bool) (xs ys : List A) → count p (xs ++ ys) ≡ count p xs + count p ys
count-append p [] ys = omega arith
count-append p (x ∷ xs) ys = omega (arith, count-append p xs ys)

count-map :
    {A B : Type 0} (p : B → Bool) (f : A → B) (xs : List A)
    → count p (map f xs) ≡ count (λ x. p (f x)) xs
count-map p f [] = refl
count-map p f (x ∷ xs) = omega (arith, count-map p f xs)

module _ {A : Type 0} where
  -- The cases of a type.
  abbrev pub cases_of : BsonType → List (Param A) → ℕ
  cases_of t ps = count (λ p. t == p.bson_type) ps

  -- A keyword's case accepts the type, or does not leave it out.
  unfoldable pub is_tested : BsonType → BsonTypeTestCase A → Bool
  is_tested t spec = contains (spec.valid_types) t || not (contains (spec.skip_rejection_types) t)

  -- No case names the type twice.
  abbrev pub ListedOnce : BsonType → List (BsonTypeTestCase A) → Type 0
  ListedOnce t [] = Unit
  ListedOnce t (spec ∷ params) = (count (λ u. t == u) (spec.valid_types) ≤ 1) × ListedOnce t params

  -- The rejections and the acceptances of a type together are the keywords that test it, once each.
  cases_of_type :
      (samples : BsonType → A) (t : BsonType) (params : List (BsonTypeTestCase A))
      → ListedOnce t params
      → cases_of t (generate_bson_rejection_test_cases samples params)
          + cases_of t (generate_bson_acceptance_test_cases samples params)
        ≡ count (is_tested t) params
  unfolding generate_bson_rejection_test_cases generate_bson_acceptance_test_cases is_tested
      is_rejected
  cases_of_type samples t [] _ = refl
  cases_of_type samples t (spec ∷ params) (once, onces) =
      let rejected = select (is_rejected samples spec) bson_types in
      ground (
        arith,
        once,
        cases_of_type samples t params onces,
        count-append (λ p. t == p.bson_type) (map (rejection samples spec) rejected)
            (generate_bson_rejection_test_cases samples params),
        count-append (λ p. t == p.bson_type) (map (acceptance samples spec) (spec.valid_types))
            (generate_bson_acceptance_test_cases samples params),
        count-map (λ p. t == p.bson_type) (rejection samples spec) rejected,
        count-map (λ p. t == p.bson_type) (acceptance samples spec) (spec.valid_types),
        count-select t (is_rejected samples spec) bson_types,
        bson_types_once t,
        count_not_contained t (spec.valid_types),
        count_contained t (spec.valid_types),
      )
