-- ===== src/Assertions/Nan.antt =====
-- Comparisons in which NaN equals NaN (`_replace_nan`, `assertSuccessNaN` of assertions.py).
use mathlib.Core.Path.{subst}
use functional_tests.Base.{
  String, ◌≡◌, refl, sym, ap, Bool, true, false, some, List, [], ◌∷◌, contains, string_eq,
  Bool-cases, inl, inr, if◌then◌else◌,
}
use functional_tests.Bson.{
  Host, Value, atom, list, tuple, dict, Items, nil, cons, Fields, end, field, field_keys,
}
use functional_tests.Bson.Equality.{IsPlain, IsPlainItems, IsPlainFields, strict_equal_refl}
use functional_tests.Assertions.{Result, response, Outcome, first_batch, assert_success}

-- `is_nan` says that an atom is a `float` or a `Decimal128` that is NaN; `marker` is "__NaN__".
module _ {A : Type 0} (is_nan : A → Bool) (marker : A) where
  unfoldable mutual
    pub replace_nan : Value A → Value A
    replace_nan (atom x) = if is_nan x then atom marker else atom x
    replace_nan (list xs) = list (replace_items xs)
    replace_nan (dict fs) = dict (replace_fields fs)
    replace_nan (tuple xs) = tuple xs

    pub replace_items : Items A → Items A
    replace_items nil = nil
    replace_items (cons x xs) = cons (replace_nan x) (replace_items xs)

    pub replace_fields : Fields A → Fields A
    replace_fields end = end
    replace_fields (field k v fs) = field k (replace_nan v) (replace_fields fs)

module _ {A : Type 0} (H : Host A) (is_nan : A → Bool) (marker : A)
    (sorted : Items A → Items A) where
  unfoldable pub assert_success_nan : Bool → List String → Result A → Value A → Outcome
  assert_success_nan ignore_doc_order ignore_order_in r expected =
      assert_success H sorted
        (record {
          raw_res = false;
          transform = replace_nan is_nan marker;
          ignore_doc_order = ignore_doc_order;
          ignore_order_in = ignore_order_in;
        })
        r (replace_nan is_nan marker expected)

  -- The values in which each atom equals itself or is NaN and in no tuple, and no dict lists a key
  -- twice.
  abbrev mutual
    pub IsTidy : Value A → Type 0
    IsTidy (atom x) = is_nan x ≡ false → H.eq x x ≡ true
    IsTidy (list xs) = IsTidyItems xs
    IsTidy (tuple xs) = IsPlainItems H xs
    IsTidy (dict fs) = IsTidyFields fs

    pub IsTidyItems : Items A → Type 0
    IsTidyItems nil = Unit
    IsTidyItems (cons x xs) = IsTidy x × IsTidyItems xs

    pub IsTidyFields : Fields A → Type 0
    IsTidyFields end = Unit
    IsTidyFields (field k v fs) = (contains (field_keys fs) k ≡ false) × IsTidy v × IsTidyFields fs

  replaced_keys : (fs : Fields A) → field_keys (replace_fields is_nan marker fs) ≡ field_keys fs
  unfolding replace_nan
  replaced_keys end = refl
  replaced_keys (field k v fs) = ap (λ ks. k ∷ ks) (replaced_keys fs)

  module _ (marked : H.eq marker marker ≡ true) where
    mutual
      unfolding replace_nan

      value-IsPlain : (v : Value A) → IsTidy v → IsPlain H (replace_nan is_nan marker v)
      value-IsPlain (atom x) h = elim (Bool-cases (is_nan x)) [
        | inl e ↦ rw e marked
        | inr e ↦ rw e (h e)
      ]
      value-IsPlain (list xs) h = items-IsPlainItems xs h
      value-IsPlain (tuple xs) h = h
      value-IsPlain (dict fs) h = fields-IsPlainFields fs h

      items-IsPlainItems :
          (xs : Items A) → IsTidyItems xs → IsPlainItems H (replace_items is_nan marker xs)
      items-IsPlainItems nil h = tt
      items-IsPlainItems (cons x xs) (hx, hxs) = (value-IsPlain x hx, items-IsPlainItems xs hxs)

      fields-IsPlainFields :
          (fs : Fields A) → IsTidyFields fs → IsPlainFields H (replace_fields is_nan marker fs)
      fields-IsPlainFields end h = tt
      fields-IsPlainFields (field k v fs) (fresh, hv, h) = (
        subst (λ ks. contains ks k ≡ false) (sym (replaced_keys fs)) fresh,
        value-IsPlain v hv,
        fields-IsPlainFields fs h,
      )

    -- With the default options, `assertSuccessNaN` accepts a response whose first batch is the
    -- expected value, even if NaN is in its lists and dicts, if every other atom and the marker
    -- equal themselves, no NaN is in a tuple, and no dict lists a key twice.
    assert_success_nan_same :
        (v expected : Value A)
        → first_batch v ≡ some expected
        → IsTidy expected
        → assert_success_nan false [] (response v) expected ≡ Outcome.passed
    unfolding assert_success_nan assert_success
    assert_success_nan_same v expected batch tidy = rw (
      batch,
      strict_equal_refl H (replace_nan is_nan marker expected) (value-IsPlain expected tidy),
    )
