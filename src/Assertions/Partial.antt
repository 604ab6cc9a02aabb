-- ===== src/Assertions/Partial.antt =====
-- Partial matches (`_extract_partial` of assertions.py).
use functional_tests.Base.{
  String, ◌≡◌, refl, sym, ◌∙◌, ap, false, Option, none, some, arith, string_eq, contains,
  Option-cases, inl, inr,
}
use mathlib.Core.Path.{ap₂}
use functional_tests.Bson.Equality.{IsPlain, IsPlainItems, IsPlainFields, Found, Found-refl}
use functional_tests.Bson.{
  Host, Value, atom, list, tuple, dict, Items, nil, cons, Fields, end, field, field_keys, get,
}
use functional_tests.Assertions.{extract_partial, extract_fields, extract_items}

module _ {A : Type 0} where
  -- The extracted field, if the actual document has its key.
  abbrev pub pick : String → Value A → Option (Value A) → Fields A → Fields A
  pick k v none rest = rest
  pick k v (some w) rest = field k (extract_partial v w) rest

  pub extract_fields-field :
      (k : String) (v : Value A) (fs a : Fields A)
      → extract_fields (field k v fs) a ≡ pick k v (get k a) (extract_fields fs a)
  unfolding extract_partial
  extract_fields-field k v fs a = elim (Option-cases (get k a)) [
    | inl e ↦ rw (e, extract_fields)
    | inr (w, e) ↦ rw (e, extract_fields)
  ]

  -- A field of the actual document that is not expected does not matter.
  pub extract_fields-absent :
      (e a : Fields A) (k : String) (v : Value A)
      → contains (field_keys e) k ≡ false
      → extract_fields e (field k v a) ≡ extract_fields e a
  unfolding get
  extract_fields-absent end a k v h = unfold extract_partial in refl
  extract_fields-absent (field j u es) a k v h =
      let same : get j (field k v a) ≡ get j a = ground arith in
      extract_fields-field j u es (field k v a)
      ∙ rw (same, extract_fields-absent es a k v (ground arith))
          (sym (extract_fields-field j u es a))

module _ {A : Type 0} (H : Host A) where
  mutual
    unfolding extract_partial

    pub value_self : (v : Value A) → IsPlain H v → extract_partial v v ≡ v
    value_self (atom x) h = refl
    value_self (list xs) h = ap list (items_self xs h)
    value_self (tuple xs) h = refl
    value_self (dict fs) h = ap dict (fields_self fs fs h (Found-refl H fs h))

    pub items_self : (xs : Items A) → IsPlainItems H xs → extract_items xs xs ≡ xs
    items_self nil h = refl
    items_self (cons x xs) (hx, hxs) = ap₂ cons (value_self x hx) (items_self xs hxs)

    pub fields_self : (fs b : Fields A) → IsPlainFields H fs → Found fs b → extract_fields fs b ≡ fs
    fields_self end b h found = refl
    fields_self (field k v fs) b (_, hv, h) (here, found) =
        rw (here, extract_fields) (ap₂ (field k) (value_self v hv) (fields_self fs b h found))
