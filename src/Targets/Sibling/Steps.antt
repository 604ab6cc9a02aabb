-- ===== src/Targets/Sibling/Steps.antt =====
-- The calls that create a sibling (framework/target_collection.py).
use functional_tests.Base.{
  ◌≡◌, String, ◌<>◌, Bool, true, false, all, count, ◌==◌, string_eq, arith, if◌then◌else◌,
}
use functional_tests.Ast.Every.{is_nil}
use functional_tests.Targets.Sibling.{
  SiblingCollection, Step, create_collection, create_indexes, insert_many, create,
}

module _ {A I : Type 0} where
  abbrev step_name : Step A I → String
  step_name (create_collection n _) = n
  step_name (create_indexes n _) = n
  step_name (insert_many n _) = n

  abbrev is_creation : Step A I → Bool
  is_creation (create_collection _ _) = true
  is_creation _ = false

  abbrev is_indexing : Step A I → Bool
  is_indexing (create_indexes _ _) = true
  is_indexing _ = false

  -- Every call is on the collection with the sibling's name, one creates it, and the indexes, if
  -- there are any, are created twice.
  create_lem :
      (s : SiblingCollection A I) (source : String)
      → (all (λ step. step_name step == source <> s.suffix) (create s source) ≡ true)
        × (count is_creation (create s source) ≡ 1)
        × (count is_indexing (create s source) ≡ (if is_nil s.indexes then 0 else 2))
  unfolding create
  create_lem s source = (ground arith, ground arith, ground arith)
