-- ===== src/Targets/Sibling.antt =====
-- A collection beside the fixture's (`SiblingCollection` of framework/target_collection.py).
pub mod Steps
use functional_tests.Base.{
  String, ◌<>◌, Bool, true, false, not, ◌||◌, Option, none, some, List, [], ◌∷◌, ◌++◌,
  if◌then◌else◌,
}
use functional_tests.Bson.{Value, atom, list, dict, Items, nil, cons, Fields, end, field}
use functional_tests.Ast.Every.{is_nil}
use functional_tests.Payload.Lazy.{Payload, materialize}

-- Documents may have deferred parts. An empty dict or list is none, as the code tests its truth; so
-- is an empty time field. `I` has the index models.
pub record SiblingCollection (A I : Type 0) : Type 0 where
  pub suffix : String
  pub view_on_source : Bool
  pub timeseries_field : Option String
  pub validator : Fields A
  pub collation : Fields A
  pub docs : List (Payload (Value A))
  pub indexes : List I

-- The options of `create_collection`.
pub data CreateOptions (A : Type 0) : Type 0 where
  view_on : String → CreateOptions A
  timeseries : String → CreateOptions A
  validated collated : Fields A → CreateOptions A
  plain : CreateOptions A

-- The calls of the driver, with the collection's name.
pub data Step (A I : Type 0) : Type 0 where
  create_collection : String → CreateOptions A → Step A I
  create_indexes : String → List I → Step A I
  insert_many : String → List (Payload (Value A)) → Step A I

module _ {A : Type 0} where
  abbrev no_fields : Fields A → Bool
  no_fields end = true
  no_fields (field _ _ _) = false

  abbrev on_timeseries : Option String → CreateOptions A → CreateOptions A
  on_timeseries none other = other
  on_timeseries (some f) other = timeseries f

  abbrev materialize_all : List (Payload (Value A)) → List (Payload (Value A))
  materialize_all [] = []
  materialize_all (d ∷ ds) = (materialize d).0 ∷ materialize_all ds

module _ {A I : Type 0} where
  abbrev on_fields : SiblingCollection A I → CreateOptions A
  on_fields s =
      if not (no_fields s.validator)
      then validated s.validator
      else if not (no_fields s.collation)
      then collated s.collation
      else plain

  unfoldable pub options_of : SiblingCollection A I → String → CreateOptions A
  options_of s source =
      if s.view_on_source then view_on source else on_timeseries s.timeseries_field (on_fields s)

  abbrev pub index_steps : SiblingCollection A I → String → List (Step A I)
  index_steps s name = if is_nil s.indexes then [] else create_indexes name s.indexes ∷ []

  abbrev doc_steps : SiblingCollection A I → String → List (Step A I)
  doc_steps s name = if is_nil s.docs then [] else insert_many name (materialize_all s.docs) ∷ []

  -- `create`, beside the collection of the given name.
  unfoldable pub create : SiblingCollection A I → String → List (Step A I)
  unfolding options_of
  create s source =
      let name = source <> s.suffix in
      (create_collection name (options_of s source) ∷ [])
      ++ index_steps s name
      ++ doc_steps s name
      ++ index_steps s name
