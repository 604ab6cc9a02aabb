-- ===== src/Tests/Bson.antt =====
-- Values over a small host: integers of two classes, strings and floats of positive_zero and NaN.
use functional_tests.Base.{
  ℕ, String, ◌≡◌, refl, ◌↔◌, Bool, true, false, ◌==◌, nat_eq, string_eq, not,
}
use functional_tests.Bson.{
  Class, Class-discrete, float, int, int64, str, none_type, Host, atom, list, tuple, dict, nil,
  cons, Fields, end, field, get, same_keys, strict_equal, class_eq, atoms_equal,
}
use functional_tests.Bson.Equality.{IsPlainFields, Covers, strict_equal_dict}

pub data Atom : Type 0 where
  integer long : ℕ → Atom
  string : String → Atom
  positive_zero negative_zero nan nothing : Atom

abbrev pub class_of : Atom → Class
class_of (integer n) = int
class_of (long n) = int64
class_of (string s) = str
class_of positive_zero = float
class_of negative_zero = float
class_of nan = float
class_of nothing = none_type

abbrev pub eq : Atom → Atom → Bool
eq (integer m) (integer n) = m == n
eq (integer m) (long n) = m == n
eq (long m) (integer n) = m == n
eq (long m) (long n) = m == n
eq (integer ℕ.zero) positive_zero = true
eq positive_zero (integer ℕ.zero) = true
eq (string s) (string t) = s == t
eq positive_zero positive_zero = true
eq positive_zero negative_zero = true
eq negative_zero positive_zero = true
eq negative_zero negative_zero = true
eq nothing nothing = true
eq _ _ = false

abbrev pub host : Host Atom
host = record {
  class_of = class_of;
  eq = eq;
  is_zero = λ a. eq a positive_zero;
  negative = λ a. elim a [ negative_zero ↦ true | _ ↦ false ];
  truthy = λ a. not (eq a nothing);
  byte_len = λ a. 0;
  null = nothing;
}

-- An `int` and an `Int64` of one value, and the zeros of two signs, are told apart.
classes_differ : strict_equal host (atom (integer 1)) (atom (long 1)) ≡ false
unfolding strict_equal atoms_equal class_eq Class-discrete string_eq nat_eq
classes_differ = refl

zeros_differ : strict_equal host (atom positive_zero) (atom negative_zero) ≡ false
unfolding strict_equal atoms_equal class_eq Class-discrete string_eq nat_eq
zeros_differ = refl

abbrev pub doc : Fields Atom
doc =
    field "a" (list (cons (atom (integer 1)) (cons (atom positive_zero) nil)))
      (field "b" (atom nothing) end)

abbrev swapped : Fields Atom
swapped =
    field "b" (atom nothing)
      (field "a" (tuple (cons (atom (integer 1)) (cons (atom positive_zero) nil))) end)

pub doc-IsPlain : IsPlainFields host doc
unfolding string_eq nat_eq
doc-IsPlain = (refl, (refl, (refl, tt)), (refl, refl, tt))

strict_equal_dict_example :
    (strict_equal host (dict doc) (dict swapped) ≡ true)
    ↔ ((same_keys doc swapped ≡ true) × Covers host doc swapped)
strict_equal_dict_example = strict_equal_dict host doc swapped doc-IsPlain

swapped_equal : strict_equal host (dict doc) (dict swapped) ≡ true
unfolding strict_equal atoms_equal class_eq Class-discrete string_eq nat_eq get
swapped_equal = refl
