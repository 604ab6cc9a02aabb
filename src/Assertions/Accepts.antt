-- ===== src/Assertions/Accepts.antt =====
-- When `assertSuccessPartial` passes.
use functional_tests.Base.{
  String, ◌≡◌, refl, ◌∙◌, ap, ◌≢◌, Bool, true, false, ◌&&◌, ◌||◌, none, List, [], ◌∷◌, arith, ◌==◌,
  string_eq, contains, all, any, Bool-cases, Option-cases, inl, inr, if◌then◌else◌,
}
use functional_tests.Bson.{
  Host, Value, atom, list, tuple, dict, Items, Fields, end, field, field_keys, get, strict_equal,
  same_keys,
}
use functional_tests.Bson.Equality.{IsPlainFields, strict_equal_refl, strict_equal-dict}
use functional_tests.Assertions.{
  response, passed, assertion_error, gossip_fields, strip_fields, strip_replication_gossip,
  extract_partial, extract_fields, assert_success_partial,
}
use functional_tests.Assertions.Compare.{get-strip_fields}
use functional_tests.Assertions.Partial.{extract_fields-field, extract_fields-absent, value_self}

contains-all :
    (p : String → Bool) (ks : List String) (k : String)
    → all p ks ≡ true
    → contains ks k ≡ true
    → p k ≡ true
contains-all p [] k h m = cc
contains-all p (j ∷ ks) k h m = ground (arith, contains-all p ks k)

if_passed :
    (tag : String) (b : Bool) → (if b then passed else assertion_error tag) ≡ passed → b ≡ true
if_passed tag true h = refl
if_passed tag false h = cc

and_left : (a b : Bool) → (a && b) ≡ true → a ≡ true
and_left true b h = refl
and_left false b h = cc

and_right : (a b : Bool) → (a && b) ≡ true → b ≡ true
and_right true b h = h
and_right false b h = cc

module _ {A : Type 0} where
  strip_none :
      (fs : Fields A) → any (contains gossip_fields) (field_keys fs) ≡ false → strip_fields fs ≡ fs
  unfolding strip_fields
  strip_none end h = refl
  strip_none (field k v fs) h = ground (arith, strip_none fs (ground arith))

  no_key : (a : Fields A) (k : String) → contains (field_keys (extract_fields end a)) k ≡ true → ⊥
  unfolding extract_partial
  no_key a k h = cc

  extracted_key :
      (e a : Fields A) (k : String)
      → contains (field_keys (extract_fields e a)) k ≡ true
      → get k a ≢ none
  extracted_key end a k h = absurd (no_key a k h)
  extracted_key (field j u es) a k h = elim (Option-cases (get j a)) [
    | inl n ↦ extracted_key es a k (rw (extract_fields-field, n) at h)
    | inr (w, s) ↦
        let m : (k == j || contains (field_keys (extract_fields es a)) k) ≡ true =
          rw (extract_fields-field, s) at h in
        elim (Bool-cases (k == j)) [
          | inl same ↦ ground (arith, s)
          | inr differ ↦ extracted_key es a k (ground arith)
        ]
  ]

  stripped_key :
      (fs : Fields A) (k : String)
      → contains (field_keys fs) k ≡ true
      → contains gossip_fields k ≡ false
      → contains (field_keys (strip_fields fs)) k ≡ true
  unfolding strip_fields
  stripped_key end k m h = cc
  stripped_key (field j v fs) k m h = ground (arith, stripped_key fs k)

module _ {A : Type 0} (H : Host A) (sorted : Items A → Items A) where
  extract_extra :
      (e : Fields A) (k : String) (x : Value A)
      → IsPlainFields H e
      → contains (field_keys e) k ≡ false
      → extract_partial (dict e) (dict (field k x e)) ≡ dict e
  unfolding extract_partial
  extract_extra e k x plain fresh =
      ap dict (extract_fields-absent e e k x fresh) ∙ value_self H (dict e) plain

  -- A partial match accepts a response that has the expected fields and, in front of them, one field
  -- more, if the expected document has no key twice, no gossip field and no key of the new field,
  -- and each of its atoms equals itself.
  assert_success_partial_extra :
      (e : Fields A) (k : String) (x : Value A)
      → IsPlainFields H e
      → any (contains gossip_fields) (field_keys e) ≡ false
      → contains (field_keys e) k ≡ false
      → assert_success_partial H sorted (response (dict (field k x e))) (dict e) ≡ passed
  unfolding assert_success_partial strip_replication_gossip
  assert_success_partial_extra e k x plain clean fresh =
      elim (Bool-cases (contains gossip_fields k)) [
        | inl gossip ↦
            rw (strip_none e clean, gossip)
              (rw (value_self H (dict e) plain, strict_equal_refl H (dict e) plain))
        | inr other ↦
            rw (strip_none e clean, other)
              (rw (extract_extra e k x plain fresh, strict_equal_refl H (dict e) plain))
      ]

  accepted_keys :
      (a e : Fields A)
      → assert_success_partial H sorted (response (dict a)) (dict e) ≡ passed
      → same_keys (extract_fields e (strip_fields a)) (strip_fields e) ≡ true
  unfolding assert_success_partial strip_replication_gossip extract_partial
  accepted_keys a e h = and_left _ _ (
      rw strict_equal-dict at (
        if_passed "RESULT_MISMATCH"
          (strict_equal H (dict (extract_fields e (strip_fields a))) (dict (strip_fields e))) h))

  accepted_dict :
      (v : Value A) (e : Fields A)
      → assert_success_partial H sorted (response v) (dict e) ≡ passed
      → (a : Fields A) × (v ≡ dict a)
  unfolding assert_success_partial strip_replication_gossip extract_partial strict_equal
  accepted_dict (dict a) e h = (a, refl)
  accepted_dict (atom x) e h = cc
  accepted_dict (list xs) e h = cc
  accepted_dict (tuple xs) e h = cc

  accepted_key :
      (a e : Fields A) (k : String)
      → assert_success_partial H sorted (response (dict a)) (dict e) ≡ passed
      → contains (field_keys e) k ≡ true
      → contains gossip_fields k ≡ false
      → get k a ≢ none
  accepted_key a e k h m clean absent =
      let keys = accepted_keys a e h in
      let found =
        contains-all (contains (field_keys (extract_fields e (strip_fields a))))
          (field_keys (strip_fields e)) k (and_right _ _ keys) (stripped_key e k m clean) in
      extracted_key e (strip_fields a) k found (get-strip_fields k a ∙ rw clean absent)

  -- A response that a partial match accepts is a document, and each expected key, but for the
  -- gossip fields, is in it.
  pub assert_success_partial_keys :
      (v : Value A) (e : Fields A)
      → assert_success_partial H sorted (response v) (dict e) ≡ passed
      → (a : Fields A) × (v ≡ dict a)
        × ((k : String)
            → contains (field_keys e) k ≡ true
            → contains gossip_fields k ≡ false
            → get k a ≢ none)
  assert_success_partial_keys v e h =
      let (a, is_dict) = accepted_dict v e h in
      (a, is_dict, λ k m clean. accepted_key a e k (rw is_dict at h) m clean)
