-- ===== src/Targets/Names.antt =====
-- The names that targets make, and the links of a chain of views (target_collection.py).
use functional_tests.Base.{ℕ, zero, suc, ◌+◌, String, ◌<>◌, ◌≡◌, refl, none, some, List, [], ◌∷◌}
use functional_tests.Targets.{
  Literals, Call, command_create, create_collection, gridfs_put, here, Target, chain_name, chain,
  extras, resolve, target_collection, view_collection, view_on_custom_collection,
  view_chain_collection, collection_with_view, target_database, existing_database,
  existing_collection, extra_collections,
}

module _ {A : Type 0} where
  abbrev pub created : Call A → String
  created (command_create name _ _) = name
  created (create_collection name _ _) = name
  created (gridfs_put prefix) = prefix

  -- Each call makes a collection whose name is the given one with a suffix.
  abbrev pub Derived : String → List (Call A) → Type 0
  Derived coll [] = Unit {0}
  Derived coll (c ∷ calls) = ((suffix : String) × (created c ≡ coll <> suffix)) × Derived coll calls

  -- The views are each on the one before, the first on `source`.
  abbrev pub IsLinked : String → List (Call A) → Type 0
  IsLinked source [] = Unit {0}
  IsLinked source (command_create name none _ ∷ calls) = ⊥
  IsLinked source (command_create name (some on) _ ∷ calls) = (on ≡ source) × IsLinked name calls
  IsLinked source (create_collection _ _ _ ∷ calls) = ⊥
  IsLinked source (gridfs_put _ ∷ calls) = ⊥

  abbrev pub last_created : String → List (Call A) → String
  last_created source [] = source
  last_created source (c ∷ calls) = last_created (created c) calls

module _ {A : Type 0} (L : Literals A) where
  chain-Derived :
      (left : ℕ) (coll source : String) (i : ℕ) → Derived coll (chain L left coll source i).0
  unfolding chain
  chain-Derived zero coll source i = tt
  chain-Derived (suc left) coll source i =
      (("_chain_" <> L.show i, refl), chain-Derived left coll (chain_name L coll i) (i + 1))

  extras-Derived : (left : ℕ) (coll : String) (i : ℕ) → Derived coll (extras L left coll i)
  unfolding extras
  extras-Derived zero coll i = tt
  extras-Derived (suc left) coll i =
      (("_extra_" <> L.show i, refl), extras-Derived left coll (i + 1))

  -- Whatever a target creates, its name begins with the name of the fixture collection.
  resolve-Derived : (t : Target A) (db coll : String) → Derived coll (resolve L t db coll).0
  unfolding resolve
  resolve-Derived (view_chain_collection depth) db coll = chain-Derived depth coll coll 1
  resolve-Derived (extra_collections count) db coll = extras-Derived count coll 0
  resolve-Derived (view_collection options suffix) db coll = ((suffix, refl), tt)
  resolve-Derived target_collection db coll = tt
  resolve-Derived (view_on_custom_collection options) db coll = ((_, refl), ((_, refl), tt))
  resolve-Derived (collection_with_view options) db coll = ((_, refl), ((_, refl), tt))
  resolve-Derived (target_database suffix) db coll = tt
  resolve-Derived (existing_database name) db coll = tt
  resolve-Derived (existing_collection name) db coll = tt
  resolve-Derived _ db coll = ((_, refl), tt)

  chain_links :
      (left : ℕ) (coll source : String) (i : ℕ)
      → let (calls, last) = chain L left coll source i in
        IsLinked source calls × (last ≡ here (last_created source calls))
  unfolding chain
  chain_links zero coll source i = (tt, refl)
  chain_links (suc left) coll source i =
      let (linked, last) = chain_links left coll (chain_name L coll i) (i + 1) in
      ((refl, linked), last)

  -- A chain of views begins at the fixture collection, each next view is on the one before, and
  -- the target is the last.
  view_chain-IsLinked :
      (depth : ℕ) (db coll : String)
      → let (calls, last) = resolve L (view_chain_collection depth) db coll in
        IsLinked coll calls × (last ≡ here (last_created coll calls))
  unfolding resolve
  view_chain-IsLinked depth db coll = chain_links depth coll coll 1
