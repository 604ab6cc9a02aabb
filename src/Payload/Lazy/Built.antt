-- ===== src/Payload/Lazy/Built.antt =====
-- What `materialize` returns (framework/lazy_payload.py).
use functional_tests.Base.{◌≡◌, refl, Bool, true, false, ◌||◌, arith}
use mathlib.Core.Path.{ap₂}
use functional_tests.Payload.Lazy.{
  Payload, atom, lazy, list, tuple, dict, Elements, nil, cons, Entries, end, entry, materialize,
  materialize_elements, materialize_entries,
}

module _ {A : Type 0} where
  -- Whether a `Lazy` stands anywhere in a value.
  unfoldable mutual
    pub has_lazy : Payload A → Bool
    has_lazy (atom x) = false
    has_lazy (lazy p) = true
    has_lazy (list xs) = elements_lazy xs
    has_lazy (tuple xs) = elements_lazy xs
    has_lazy (dict es) = entries_lazy es

    pub elements_lazy : Elements A → Bool
    elements_lazy nil = false
    elements_lazy (cons x xs) = has_lazy x || elements_lazy xs

    pub entries_lazy : Entries A → Bool
    entries_lazy end = false
    entries_lazy (entry k x es) = has_lazy x || entries_lazy es

  mutual
    unfolding materialize has_lazy

    changed_lem : (p : Payload A) → (materialize p).1 ≡ has_lazy p
    changed_lem (atom x) = refl
    changed_lem (lazy p) = refl
    changed_lem (list xs) = ground (arith, changed_elements xs)
    changed_lem (tuple xs) = ground (arith, changed_elements xs)
    changed_lem (dict es) = ground (arith, changed_entries es)

    changed_elements : (xs : Elements A) → (materialize_elements xs).1 ≡ elements_lazy xs
    changed_elements nil = refl
    changed_elements (cons x xs) = ground (arith, changed_lem x, changed_elements xs)

    changed_entries : (es : Entries A) → (materialize_entries es).1 ≡ entries_lazy es
    changed_entries end = refl
    changed_entries (entry k x es) = ground (arith, changed_lem x, changed_entries es)

  mutual
    unfolding materialize has_lazy

    built_lem : (p : Payload A) → has_lazy (materialize p).0 ≡ false
    built_lem (atom x) = refl
    built_lem (lazy p) = built_lem p
    built_lem (list xs) = ground (arith, built_elements xs, changed_elements xs)
    built_lem (tuple xs) = ground (arith, built_elements xs, changed_elements xs)
    built_lem (dict es) = ground (arith, built_entries es, changed_entries es)

    built_elements : (xs : Elements A) → elements_lazy (materialize_elements xs).0 ≡ false
    built_elements nil = refl
    built_elements (cons x xs) = ground (arith, built_lem x, built_elements xs)

    built_entries : (es : Entries A) → entries_lazy (materialize_entries es).0 ≡ false
    built_entries end = refl
    built_entries (entry k x es) = ground (arith, built_lem x, built_entries es)

  mutual
    unfolding materialize has_lazy

    plain_lem : (p : Payload A) → has_lazy p ≡ false → (materialize p).0 ≡ p
    plain_lem (atom x) h = refl
    plain_lem (lazy p) h = cc
    plain_lem (list xs) h = ground (arith, changed_elements xs)
    plain_lem (tuple xs) h = ground (arith, changed_elements xs)
    plain_lem (dict es) h = ground (arith, changed_entries es)

  -- The value that is returned holds no `Lazy`; it is a new object exactly if the given one holds
  -- a `Lazy`; and if it holds none, the value is the given one.
  materialize_lem :
      (p : Payload A)
      → (has_lazy (materialize p).0 ≡ false)
        × ((materialize p).1 ≡ has_lazy p)
        × (has_lazy p ≡ false → (materialize p).0 ≡ p)
  materialize_lem p = (built_lem p, changed_lem p, plain_lem p)

  -- A second call changes nothing.
  materialize_twice : (p : Payload A) → materialize (materialize p).0 ≡ ((materialize p).0, false)
  materialize_twice p =
      ap₂ (λ q b. (q, b)) (plain_lem (materialize p).0 (built_lem p)) (rw changed_lem (built_lem p))
