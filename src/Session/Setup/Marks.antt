-- ===== src/Session/Setup/Marks.antt =====
-- The engines' marks of an item, and the dropped namespaces (conftest.py).
use functional_tests.Base.{
  ℕ, String, ◌≡◌, refl, ◌↔◌, Bool, true, not, ◌||◌, Option, none, some, List, [], ◌∷◌, ◌++◌, map,
  any, count, length, string_eq, nat_eq, arith,
}
use functional_tests.Base.Text.{Text}
use functional_tests.Session.Setup.{
  EngineMark, same_engine, added_xfails, crash_skip, Drop, database, collection, one_more, drop_of,
  split_dot, dropped,
}

abbrev pub is_for : Option String → EngineMark → Bool
is_for engine m = same_engine engine m.engine

-- A test is skipped for a crash exactly if crash tests are not asked for and a mark names its engine.
crash_skip-none :
    (engine : Option String) (run_crash_tests : Bool) (marks : List EngineMark)
    → (crash_skip engine run_crash_tests marks ≡ none)
      ↔ ((run_crash_tests || not (any (is_for engine) marks)) ≡ true)
unfolding crash_skip
crash_skip-none engine run_crash_tests [] = ground arith
crash_skip-none engine run_crash_tests (m ∷ ms) =
    ground (arith, crash_skip-none engine run_crash_tests ms)

-- As many `xfail` marks are added as `engine_xfail` marks name the engine of the item.
length-added_xfails :
    (engine : Option String) (marks : List EngineMark)
    → length (added_xfails engine marks) ≡ count (is_for engine) marks
unfolding added_xfails
length-added_xfails engine [] = refl
length-added_xfails engine (m ∷ ms) = ground (arith, length-added_xfails engine ms)

-- The namespace of what is dropped.
abbrev namespace : Drop → Text
namespace (database db) = db
namespace (collection db coll) = db ++ b'.' ∷ coll

namespace-one_more :
    (c : ℕ) (s : Text) (o : Option (Text × Text))
    → namespace (drop_of (c ∷ s) (one_more c o)) ≡ c ∷ namespace (drop_of s o)
namespace-one_more c s none = refl
namespace-one_more c s (some (db, coll)) = refl

namespace-drop_of : (name : Text) → namespace (drop_of name (split_dot name)) ≡ name
unfolding split_dot
namespace-drop_of [] = refl
namespace-drop_of (c ∷ s) =
    ground (arith, namespace-one_more c s (split_dot s), namespace-drop_of s)

-- What is dropped after a test are the registered names, in their order.
namespaces-dropped : (names : List Text) → map namespace (dropped names) ≡ names
unfolding dropped
namespaces-dropped [] = refl
namespaces-dropped (name ∷ names) = ground (arith, namespace-drop_of name, namespaces-dropped names)
