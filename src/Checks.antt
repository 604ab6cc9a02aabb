-- ===== src/Checks.antt =====
-- Property checks of single fields (framework/property_checks.py). The texts of the failure messages
-- are not modelled: a check passes, fails or raises.
pub mod Pairs
use functional_tests.Base.{
  ℕ, String, Bool, true, false, not, ◌&&◌, ◌||◌, Option, none, some, List, [], ◌∷◌, ◌==◌, nat_eq,
  string_eq, contains, ltb, leb, if◌then◌else◌,
}
use functional_tests.Bson.{
  Class, float, int, bool, str, none_type, int64, decimal128, binary, bytes, bytearray, datetime,
  object_id, timestamp, code, other, class_eq, Host, Value, atom, list, tuple, dict, Items, nil,
  cons, Fields, field_keys, get, strict_equal,
}

-- The classes, with one constructor each.
pub data Check (A : Type 0) : Type 0 where
  exists not_exists non_empty_str : Check A
  is_type : String → Check A
  eq ne gt gte lte contains_element : Value A → Check A
  ordered_keys : List String → Check A
  len len_gt len_lte byte_len : ℕ → Check A
  has_element lacks_element : String → Value A → Check A
  has_key : String → Check A

-- `None`, an error string, or an exception: a `TypeError` of an order between classes.
pub data Verdict : Type 0 where
  passed failed raised : Verdict

abbrev pub fail_unless : Bool → Verdict
fail_unless b = if b then passed else failed

-- `type(x).__name__`
abbrev class_name : Class → String
class_name float = "float"
class_name int = "int"
class_name bool = "bool"
class_name str = "str"
class_name none_type = "NoneType"
class_name int64 = "Int64"
class_name decimal128 = "Decimal128"
class_name binary = "Binary"
class_name bytes = "bytes"
class_name bytearray = "bytearray"
class_name datetime = "datetime"
class_name object_id = "ObjectId"
class_name timestamp = "Timestamp"
class_name code = "Code"
class_name (other name) = name

-- `_PY_TO_BSON.get(type(value), type(value).__name__)` for an atom.
abbrev pub bson_class_name : Class → String
bson_class_name float = "double"
bson_class_name int = "int"
bson_class_name bool = "bool"
bson_class_name str = "string"
bson_class_name none_type = "null"
bson_class_name int64 = "long"
bson_class_name decimal128 = "decimal"
bson_class_name binary = "binData"
bson_class_name datetime = "date"
bson_class_name object_id = "objectId"
bson_class_name timestamp = "timestamp"
bson_class_name bytes = class_name bytes
bson_class_name bytearray = class_name bytearray
bson_class_name code = class_name code
bson_class_name (other name) = name

-- `_VALID_TYPES`
abbrev pub valid_types : List String
valid_types =
    "double" ∷ "string" ∷ "object" ∷ "array" ∷ "binData" ∷ "bool" ∷ "null" ∷ "int" ∷ "long"
    ∷ "decimal" ∷ "date" ∷ "objectId" ∷ "timestamp" ∷ []

-- `IsType(bson_type)`, which raises for an unknown name.
unfoldable pub make_is_type : {A : Type 0} → String → Option (Check A)
make_is_type name = if contains valid_types name then some (is_type name) else none

abbrev is_str : Class → Bool
is_str str = true
is_str code = true
is_str _ = false

abbrev is_bytes : Class → Bool
is_bytes bytes = true
is_bytes bytearray = true
is_bytes binary = true
is_bytes _ = false

-- `type(x) in _NUMERIC_BSON_TYPES`, which looks at the class itself.
abbrev is_exact_numeric : Class → Bool
is_exact_numeric int = true
is_exact_numeric float = true
is_exact_numeric int64 = true
is_exact_numeric decimal128 = true
is_exact_numeric _ = false

abbrev pub length_items : {A : Type 0} → Items A → ℕ
length_items nil = 0
length_items (cons x xs) = ℕ.suc (length_items xs)

-- Numbers of two classes, which `Ne` refuses to compare.
abbrev pub cross_type : {A : Type 0} → Host A → Value A → Value A → Bool
cross_type H (atom x) (atom y) =
    is_exact_numeric (H.class_of x)
    && is_exact_numeric (H.class_of y)
    && not (H.class_of x == H.class_of y)
cross_type H _ _ = false

module _ {A : Type 0} (H : Host A) (le lt : Value A → Value A → Option Bool) where
  unfoldable pub bson_name : Value A → String
  bson_name (atom x) = bson_class_name (H.class_of x)
  bson_name (list xs) = "array"
  bson_name (tuple xs) = "tuple"
  bson_name (dict fs) = "object"

  -- `item.get(key)`, which is `None` where the key is missing.
  abbrev get_or_null : String → Fields A → Value A
  get_or_null k fs = elim (get k fs) [ none ↦ atom H.null | some v ↦ v ]

  -- Whether some item is a dict with an equal value under the key.
  unfoldable pub some_dict_has : String → Value A → Items A → Bool
  some_dict_has k v nil = false
  some_dict_has k v (cons (dict fs) xs) =
      strict_equal H (get_or_null k fs) v || some_dict_has k v xs
  some_dict_has k v (cons _ xs) = some_dict_has k v xs

  unfoldable pub some_equal : Value A → Items A → Bool
  some_equal v nil = false
  some_equal v (cons x xs) = strict_equal H x v || some_equal v xs

  abbrev keys_are : List String → List String → Bool
  keys_are [] [] = true
  keys_are (k ∷ ks) (j ∷ js) = k == j && keys_are ks js
  keys_are _ _ = false

  -- The outcome of an order that fails the check where it holds.
  abbrev fail_where : Option Bool → Verdict
  fail_where none = raised
  fail_where (some b) = if b then failed else passed

  abbrev check_list : (Items A → Bool) → Value A → Verdict
  check_list p (list xs) = fail_unless (p xs)
  check_list p _ = failed

  abbrev check_dict : (Fields A → Bool) → Value A → Verdict
  check_dict p (dict fs) = fail_unless (p fs)
  check_dict p _ = failed

  abbrev check_atom : (A → Bool) → Value A → Verdict
  check_atom p (atom x) = fail_unless (p x)
  check_atom p _ = failed

  -- `check(value, path)` of a field that is there.
  unfoldable pub check_present : Check A → Value A → Verdict
  check_present exists v = passed
  check_present not_exists v = failed
  check_present (is_type name) v = fail_unless (bson_name v == name)
  check_present (eq expected) v = fail_unless (strict_equal H v expected)
  check_present (ordered_keys keys) v = check_dict (λ fs. keys_are (field_keys fs) keys) v
  check_present (len n) v = check_list (λ xs. length_items xs == n) v
  check_present (len_gt n) v = check_list (λ xs. not (leb (length_items xs) n)) v
  check_present (len_lte n) v = check_list (λ xs. not (ltb n (length_items xs))) v
  check_present (has_element k w) v = check_list (some_dict_has k w) v
  check_present (lacks_element k w) v = check_list (λ xs. not (some_dict_has k w xs)) v
  check_present (has_key k) v = check_dict (λ fs. contains (field_keys fs) k) v
  check_present (contains_element w) v = check_list (some_equal w) v
  check_present (ne rejected) v =
      fail_unless (not (strict_equal H v rejected) && not (cross_type H v rejected))
  check_present (gt minimum) v = fail_where (le v minimum)
  check_present (gte minimum) v = fail_where (lt v minimum)
  check_present (lte maximum) v = fail_where (lt maximum v)
  check_present non_empty_str v = check_atom (λ x. is_str (H.class_of x) && H.truthy x) v
  check_present (byte_len n) v = check_atom (λ x. is_bytes (H.class_of x) && H.byte_len x == n) v

  -- What the checks say of `_FIELD_ABSENT`.
  unfoldable pub check_absent : Check A → Verdict
  check_absent not_exists = passed
  check_absent (lacks_element k w) = passed
  check_absent (ne rejected) = passed
  check_absent _ = failed

  abbrev pub check : Check A → Option (Value A) → Verdict
  check c none = check_absent c
  check c (some v) = check_present c v
