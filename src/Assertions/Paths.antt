-- ===== src/Assertions/Paths.antt =====
-- Dotted paths into a document (`_walk_path` of assertions.py).
use functional_tests.Base.{
  ℕ, zero, suc, String, ◌≡◌, refl, Option, none, some, List, [], ◌∷◌, ◌++◌, Option-cases, inl, inr,
}
use functional_tests.Bson.{Value, list, dict, Items, nil, cons, get}

-- A part of a path, with its number if it `isdigit`.
pub record Part : Type 0 where
  pub name : String
  pub index : Option ℕ

module _ {A : Type 0} where
  unfoldable pub item_at : ℕ → Items A → Option (Value A)
  item_at i nil = none
  item_at zero (cons x xs) = some x
  item_at (suc i) (cons x xs) = item_at i xs

  abbrev indexed : Option ℕ → Items A → Option (Value A)
  indexed none xs = none
  indexed (some i) xs = item_at i xs

  -- One round of the loop; `none` is `_FIELD_ABSENT`.
  unfoldable pub enter : Part → Value A → Option (Value A)
  unfolding item_at
  enter p (list xs) = indexed p.index xs
  enter p (dict fs) = get p.name fs
  enter p _ = none

  abbrev pub and_then : Option (Value A) → (Value A → Option (Value A)) → Option (Value A)
  and_then none f = none
  and_then (some v) f = f v

  -- The empty path yields the document.
  unfoldable pub walk_path : List Part → Value A → Option (Value A)
  unfolding enter
  walk_path [] v = some v
  walk_path (p ∷ ps) v = and_then (enter p v) (walk_path ps)

  -- Walking a path that is put together is walking one part after the other: what `_run_checks`
  -- relies on where it joins the prefix of a group with the paths in it.
  pub walk_path-append :
      (ps qs : List Part) (v : Value A)
      → walk_path (ps ++ qs) v ≡ and_then (walk_path ps v) (walk_path qs)
  unfolding walk_path
  walk_path-append [] qs v = refl
  walk_path-append (p ∷ ps) qs v = elim (Option-cases (enter p v)) [
    | inl e ↦ rw (e, walk_path)
    | inr (w, e) ↦ rw (e, walk_path) (walk_path-append ps qs w)
  ]
