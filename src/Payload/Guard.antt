-- ===== src/Payload/Guard.antt =====
-- The size of a value, with a budget (framework/large_payload_guard.py).
pub mod Budget
use functional_tests.Base.{
  ℕ, ◌+◌, Bool, true, false, ◌||◌, List, [], ◌∷◌, ltb, contains, nat_eq, if◌then◌else◌,
}

-- An object with its `id` and its `sys.getsizeof`: a `Lazy`, a text or bytes, a dict with its keys
-- and values, a list, tuple or set, an object with a `__dict__`, or any other.
mutual
  pub data Object : Type 0 where
    object : ℕ → ℕ → Shape → Object

  pub data Shape : Type 0 where
    lazy text other : Shape
    dict : Pairs → Shape
    sequence : Elements → Shape
    instance_of : Object → Shape

  pub data Elements : Type 0 where
    nil : Elements
    cons : Object → Elements → Elements

  pub data Pairs : Type 0 where
    end : Pairs
    pair : Object → Object → Pairs → Pairs

-- A size, and the `id`s that have been seen.
abbrev pub Sized : Type 0
Sized = ℕ × List ℕ

-- `_deep_size`, with the loops over pairs and elements from a total on.
unfoldable mutual
  pub deep_size : Object → List ℕ → ℕ → Sized
  deep_size (object i own shape) seen budget = shape_size shape i own seen budget

  pub shape_size : Shape → ℕ → ℕ → List ℕ → ℕ → Sized
  shape_size lazy i own seen budget = (0, seen)
  shape_size text i own seen budget = if contains seen i then (0, seen) else (own, i ∷ seen)
  shape_size other i own seen budget = if contains seen i then (0, seen) else (own, i ∷ seen)
  shape_size (dict ps) i own seen budget =
      let loop = pairs_size ps own (i ∷ seen) budget in if contains seen i then (0, seen) else loop
  shape_size (sequence xs) i own seen budget =
      let loop = elements_size xs own (i ∷ seen) budget in
      if contains seen i then (0, seen) else loop
  shape_size (instance_of fields) i own seen budget =
      let (size, seen') = deep_size fields (i ∷ seen) budget in
      if contains seen i then (0, seen) else (own + size, seen')

  pub elements_size : Elements → ℕ → List ℕ → ℕ → Sized
  elements_size nil total seen budget = (total, seen)
  elements_size (cons x xs) total seen budget =
      let (size, seen') = deep_size x seen budget in
      let rest = elements_size xs (total + size) seen' budget in
      if ltb budget (total + size) then (total + size, seen') else rest

  pub pairs_size : Pairs → ℕ → List ℕ → ℕ → Sized
  pairs_size end total seen budget = (total, seen)
  pairs_size (pair k v ps) total seen budget =
      let (key, seen') = deep_size k seen budget in
      let (item, seen'') = deep_size v seen' budget in
      let rest = pairs_size ps (total + (key + item)) seen'' budget in
      if ltb budget (total + (key + item)) then (total + (key + item), seen'') else rest

abbrev pub param_size_limit_bytes : ℕ
param_size_limit_bytes = 1_000_000

unfoldable pub exceeds_size_limit : Object → Bool
exceeds_size_limit value = ltb param_size_limit_bytes (deep_size value [] param_size_limit_bytes).0
