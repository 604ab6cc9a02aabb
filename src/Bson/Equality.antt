-- ===== src/Bson/Equality.antt =====
-- Laws of strict equality.
use functional_tests.Base.{
  String, ◌≡◌, refl, ◌↔◌, Bool, true, false, ◌&&◌, Option, none, some, List, [], ◌∷◌, arith, ◌==◌,
  string_eq, contains, all, Bool-cases, Option-cases, inl, inr,
}
use functional_tests.Bson.{
  class_eq, Host, Value, atom, list, tuple, dict, Items, nil, cons, Fields, end, field, field_keys,
  get, same_keys, atoms_equal, strict_equal, items_equal, fields_equal,
}

contains_cons :
    (keys all_keys : List String) (k : String)
    → all (contains all_keys) keys ≡ true
    → all (contains (k ∷ all_keys)) keys ≡ true
contains_cons [] all_keys k h = refl
contains_cons (j ∷ keys) all_keys k h = ground (arith, contains_cons keys all_keys k)

contains_own : (keys : List String) → all (contains keys) keys ≡ true
contains_own [] = refl
contains_own (k ∷ keys) = ground (arith, contains_cons keys keys k (contains_own keys))

module _ {A : Type 0} (H : Host A) where
  -- The values in which each atom equals itself, so no NaN, and no dict lists a key twice.
  abbrev mutual
    pub IsPlain : Value A → Type 0
    IsPlain (atom x) = H.eq x x ≡ true
    IsPlain (list xs) = IsPlainItems xs
    IsPlain (tuple xs) = IsPlainItems xs
    IsPlain (dict fs) = IsPlainFields fs

    pub IsPlainItems : Items A → Type 0
    IsPlainItems nil = Unit
    IsPlainItems (cons x xs) = IsPlain x × IsPlainItems xs

    pub IsPlainFields : Fields A → Type 0
    IsPlainFields end = Unit
    IsPlainFields (field k v fs) =
        (contains (field_keys fs) k ≡ false) × IsPlain v × IsPlainFields fs

  atoms_equal_refl : (x : A) → H.eq x x ≡ true → atoms_equal H x x ≡ true
  unfolding atoms_equal
  atoms_equal_refl x h = ground arith

module _ {A : Type 0} where
  -- Each field of the first is what the second holds under its key.
  abbrev pub Found : Fields A → Fields A → Type 0
  Found end b = Unit
  Found (field k v fs) b = (get k b ≡ some v) × Found fs b

  Found-field :
      (fs b : Fields A) (k : String) (v : Value A)
      → contains (field_keys fs) k ≡ false
      → Found fs b
      → Found fs (field k v b)
  unfolding get
  Found-field end b k v h found = tt
  Found-field (field j w fs) b k v h (here, found) =
      (ground arith, Found-field fs b k v (ground arith) found)

module _ {A : Type 0} (H : Host A) where
  pub Found-refl : (fs : Fields A) → IsPlainFields H fs → Found fs fs
  unfolding get
  Found-refl end _ = tt
  Found-refl (field k v fs) (fresh, _, plain) =
      (ground arith, Found-field fs fs k v fresh (Found-refl fs plain))

  mutual
    unfolding strict_equal

    value_refl : (v : Value A) → IsPlain H v → strict_equal H v v ≡ true
    value_refl (atom x) h = atoms_equal_refl H x h
    value_refl (list xs) h = items_refl xs h
    value_refl (tuple xs) h = items_refl xs h
    value_refl (dict fs) h =
        ground (arith, contains_own (field_keys fs), fields_refl fs fs h (Found-refl fs h))

    items_refl : (xs : Items A) → IsPlainItems H xs → items_equal H xs xs ≡ true
    items_refl nil h = refl
    items_refl (cons x xs) (hx, hxs) = rw (value_refl x hx) (items_refl xs hxs)

    fields_refl : (fs b : Fields A) → IsPlainFields H fs → Found fs b → fields_equal H fs b ≡ true
    fields_refl end b h found = refl
    fields_refl (field k v fs) b (_, hv, h) (here, found) =
        rw (here, value_refl v hv) (fields_refl fs b h found)

  -- Strict equality is reflexive on values without NaN.
  pub strict_equal_refl : (v : Value A) → IsPlain H v → strict_equal H v v ≡ true
  strict_equal_refl v h = value_refl v h

  -- `b` has a strictly equal value under each key of `a`.
  abbrev pub Covers : Fields A → Fields A → Type 0
  Covers a b =
      (k : String) (v : Value A)
      → get k a ≡ some v
      → (w : Value A) × (get k b ≡ some w) × (strict_equal H v w ≡ true)

  abbrev fits : Value A → Option (Value A) → Bool
  fits v none = false
  fits v (some w) = strict_equal H v w

  fits-some :
      (v : Value A) (o : Option (Value A))
      → fits v o ≡ true
      → (w : Value A) × (o ≡ some w) × (strict_equal H v w ≡ true)
  fits-some v none h = cc
  fits-some v (some w) h = (w, refl, h)

  fields_equal-field :
      (k : String) (v : Value A) (fs b : Fields A)
      → fields_equal H (field k v fs) b ≡ (fits v (get k b) && fields_equal H fs b)
  unfolding strict_equal
  fields_equal-field k v fs b = elim (Option-cases (get k b)) [ inl e ↦ rw e | inr (w, e) ↦ rw e ]

  fields_equal-Covers : (a b : Fields A) → fields_equal H a b ≡ true → Covers a b
  unfolding get
  fields_equal-Covers end b h k v e = cc
  fields_equal-Covers (field j u fs) b h k v e =
      let step = fields_equal-field j u fs b in
      elim (Bool-cases (k == j)) [
        | inl same ↦ fits-some v (get k b) (ground (arith, step))
        | inr differ ↦ fields_equal-Covers fs b (ground (arith, step)) k v (ground arith)
      ]

  get-fresh : (fs : Fields A) (k : String) → contains (field_keys fs) k ≡ false → get k fs ≡ none
  unfolding get
  get-fresh end k h = refl
  get-fresh (field j v fs) k h = ground (arith, get-fresh fs k)

  Covers-fields_equal :
      (fs b : Fields A) → IsPlainFields H fs → Covers fs b → fields_equal H fs b ≡ true
  unfolding get
  Covers-fields_equal end b plain h = unfold strict_equal in refl
  Covers-fields_equal (field j u fs) b (fresh, _, plain) h =
      let (w, here, same) = h j u (ground arith) in
      rw (fields_equal-field, here, same)
        (Covers-fields_equal fs b plain λ k v e. h k v (ground (arith, get-fresh fs j fresh)))

  pub strict_equal-dict :
      (a b : Fields A) → strict_equal H (dict a) (dict b) ≡ (same_keys a b && fields_equal H a b)
  unfolding strict_equal
  strict_equal-dict a b = refl

  -- Two dicts, the first of which lists no key twice and holds no NaN, are equal exactly when they
  -- have the same keys and, in whatever order, strictly equal values under each.
  pub strict_equal_dict :
      (a b : Fields A)
      → IsPlainFields H a
      → (strict_equal H (dict a) (dict b) ≡ true) ↔ ((same_keys a b ≡ true) × Covers a b)
  strict_equal_dict a b plain =
      let step = strict_equal-dict a b in
      (
        λ e. (ground (arith, step), fields_equal-Covers a b (ground (arith, step))),
        λ (keys, covers). ground (arith, step, Covers-fields_equal a b plain covers),
      )
