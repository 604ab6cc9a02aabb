-- ===== src/Bson.antt =====
-- Python values as the tests compare them (framework/bson_compare.py; assertions.py has a copy of
-- the same function). Containers are modelled; all other objects are atoms of a parameter.
pub mod Equality
use functional_tests.Base.{
  ℕ, String, Bool, true, false, not, ◌&&◌, Option, none, some, List, [], ◌∷◌, Eq, ◌==◌, string_eq,
  contains, all, if◌then◌else◌,
}

-- The Python classes that the code tells apart. `bool` and `Int64` are subclasses of `int`, `Code`
-- of `str` and `Binary` of `bytes`; the other ones are subclasses of none of these.
pub data Class : Type 0 where
  float int bool str none_type int64 decimal128 binary bytes bytearray datetime object_id : Class
  timestamp code : Class
  other : String → Class

unfoldable pub Class-discrete : Discrete Class
Class-discrete = hlevel string_eq.dec

instance unfoldable pub class_eq : Eq Class
unfolding Class-discrete
class_eq = record { dec = Class-discrete }

-- What Python and the bson package say of atoms.
pub record Host (A : Type 0) : Type 0 where
  pub class_of : A → Class
  -- `a == b`
  pub eq : A → A → Bool
  -- `a == 0.0`
  pub is_zero : A → Bool
  -- `math.copysign(1.0, a) == -1.0`
  pub negative : A → Bool
  -- `bool(a)`
  pub truthy : A → Bool
  -- `len(a)` of a bytes-like object
  pub byte_len : A → ℕ
  -- `None`
  pub null : A

mutual
  pub data Value (A : Type 0) : Type 0 where
    atom : A → Value A
    list : Items A → Value A
    tuple : Items A → Value A
    dict : Fields A → Value A

  pub data Items (A : Type 0) : Type 0 where
    nil : Items A
    cons : Value A → Items A → Items A

  pub data Fields (A : Type 0) : Type 0 where
    end : Fields A
    field : String → Value A → Fields A → Fields A

-- `isinstance(x, _NUMERIC_BSON_TYPES)`
abbrev pub is_numeric : Class → Bool
is_numeric float = true
is_numeric int = true
is_numeric bool = true
is_numeric int64 = true
is_numeric decimal128 = true
is_numeric _ = false

module _ {A : Type 0} where
  abbrev pub field_keys : Fields A → List String
  field_keys end = []
  field_keys (field k v fs) = k ∷ field_keys fs

  -- `d.get(k)`, or `d[k]` where the key is there.
  unfoldable pub get : String → Fields A → Option (Value A)
  get k end = none
  get k (field j v fs) = if k == j then some v else get k fs

  -- `a.keys() == b.keys()`, which compares sets.
  abbrev pub same_keys : Fields A → Fields A → Bool
  same_keys a b =
      all (contains (field_keys b)) (field_keys a) && all (contains (field_keys a)) (field_keys b)

module _ {A : Type 0} (H : Host A) where
  unfoldable pub atoms_equal : A → A → Bool
  atoms_equal x y =
      let c = H.class_of x in
      let d = H.class_of y in
      if not (c == d)
      then (if is_numeric c && is_numeric d then false else H.eq x y)
      else if c == float && H.is_zero x && H.eq x y
      then (if H.negative x then H.negative y else not (H.negative y))
      else H.eq x y

  unfoldable mutual
    pub strict_equal : Value A → Value A → Bool
    strict_equal (atom x) (atom y) = atoms_equal x y
    strict_equal (list xs) (list ys) = items_equal xs ys
    strict_equal (list xs) (tuple ys) = items_equal xs ys
    strict_equal (tuple xs) (list ys) = items_equal xs ys
    strict_equal (tuple xs) (tuple ys) = items_equal xs ys
    strict_equal (dict a) (dict b) = same_keys a b && fields_equal a b
    strict_equal _ _ = false

    -- Equal lengths, and `all` over the `zip`.
    pub items_equal : Items A → Items A → Bool
    items_equal nil nil = true
    items_equal (cons x xs) (cons y ys) = strict_equal x y && items_equal xs ys
    items_equal _ _ = false

    -- `all(strict_equal(a[k], b[k]) for k in a)`
    pub fields_equal : Fields A → Fields A → Bool
    fields_equal end b = true
    fields_equal (field k v fs) b =
        elim (get k b) [ none ↦ false | some w ↦ strict_equal v w ] && fields_equal fs b
